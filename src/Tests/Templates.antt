-- ===== src/Tests/Templates.antt =====
-- Runs of the template library of uritemplate/fastmcp.go, and of mounted templates.
use fastmcp.Prelude.{
  List, none, true, ◌≢◌, ◌↔◌, txt, false, [], ◌∷◌, ◌++◌, some, inl, inr, ◌≡◌, refl, arith, text_eq,
}
use fastmcp.Prelude.Dict.{put, get}
use fastmcp.Server.Dispatch.Handlers.{read_templates}
use fastmcp.Server.Template.{match_template, compile_uri_template}
use fastmcp.Server.Registry.{mem_text}
use fastmcp.Uri.Placeholders.{
  text, group, split_query_expr, build_regex, match_uri_template, expand_uri_template,
}
use fastmcp.Uri.RoundTrip.{match-expand_uri_template, bindings}
use fastmcp.Mount.{prefix_path, prefix_uri, expand_template, default_config}
use fastmcp.Mount.Names.{prefix_uri-expand_template}
use fastmcp.Mount.Compose.{compose_template}
use fastmcp.Mount.Compose.Templates.{compose_template-read_templates}
use fastmcp.Rfc6570.{TemplatePart, literal, expression, parse}
use fastmcp.Rfc6570.Match.{ut_match}
use fastmcp.Rfc6570.Match.Parts.{ReadsParts, ut_match_iff}
use fastmcp.Rfc6570.Parsing.{Spells, parse-Spells}
use fastmcp.Tests.{demo_codec, demo_server, call_of, whole}
use fastmcp.Tests.Mounting.{demo_http, demo_wire, demo_composing}

match-expand_uri_template_example :
    match_uri_template
      (expand_uri_template (txt "users/{id}") ((txt "id", txt "a/b") ∷ []))
      (txt "users/{id}")
    ≡ some (
        bindings
          (text (txt "users/") ∷ group false (txt "id") ∷ [])
          ((txt "id", txt "a/b") ∷ [])
          [])
unfolding split_query_expr build_regex get text_eq
match-expand_uri_template_example =
    match-expand_uri_template (txt "users/{id}") ((txt "id", txt "a/b") ∷ [])
      (text (txt "users/") ∷ group false (txt "id") ∷ []) refl refl tt (ground arith, tt)
      (refl, omega arith, tt)

prefix_uri-expand_template_example :
    prefix_uri
      (expand_template (txt "users" ++ (txt "://" ++ txt "{id}")) ((txt "id", txt "7") ∷ []))
      (txt "up")
      prefix_path
    ≡ txt "users://up/7"
unfolding prefix_uri compile_uri_template match_template put text_eq mem_text
prefix_uri-expand_template_example =
    prefix_uri-expand_template (txt "up") (txt "users") (txt "{id}") prefix_path
      (txt "users://up/7") ((txt "id", txt "7") ∷ []) (ground arith, ground arith, ground arith)
      (refl, tt) refl

compose_template-read_templates_example :
    read_templates demo_codec
      (call_of (txt "resources/read") [])
      (txt "users://7")
      (compose_template demo_codec demo_http demo_wire demo_server whole
        (txt "up")
        default_config
        (record { uri = txt "users://{id}"; name = []; description = []; mime_type = [] })
        demo_composing).1.parent.templates
    ≡ read_templates demo_codec
        (call_of (txt "resources/read") [])
        (txt "users://7")
        demo_server.templates
unfolding match_template put
compose_template-read_templates_example =
    compose_template-read_templates demo_codec demo_http demo_wire demo_server whole (txt "up")
      default_config
      (record { uri = txt "users://{id}"; name = []; description = []; mime_type = [] })
      demo_composing (call_of (txt "resources/read") []) (txt "users://7") (inr (inl (λ e. cc e)))

parse-Spells_example :
    Spells
      (λ digits. none)
      (literal (txt "a/")
        ∷ expression (record {
          op = b'?';
          vars = record { name = txt "q"; explode = true; prefix = none } ∷ [];
        })
        ∷ [])
      (txt "a/{?q*}")
unfolding parse
parse-Spells_example =
    parse-Spells (λ digits. none) (txt "a/{?q*}")
      (literal (txt "a/")
        ∷ expression (record {
          op = b'?';
          vars = record { name = txt "q"; explode = true; prefix = none } ∷ [];
        })
        ∷ [])
      refl

-- a/{q}{/r}
abbrev two_expressions : List TemplatePart
two_expressions =
    literal (txt "a/")
    ∷ expression
        (record { op = 0; vars = (record { name = txt "q"; explode = false; prefix = none }) ∷ [] })
    ∷ expression (record {
      op = b'/';
      vars = (record { name = txt "r"; explode = false; prefix = none }) ∷ [];
    })
    ∷ []

ut_match_iff_example :
    (ut_match two_expressions (txt "a/7/é") ≢ none) ↔ ReadsParts two_expressions (txt "a/7/é")
ut_match_iff_example = ut_match_iff two_expressions (txt "a/7/é")

matched_expressions :
    ut_match two_expressions (txt "a/7/b") ≡ some ((txt "q", txt "7") ∷ (txt "r", txt "b") ∷ [])
unfolding ut_match put text_eq
matched_expressions = refl
