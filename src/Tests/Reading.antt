-- ===== src/Tests/Reading.antt =====
-- Runs of resources/read and completion/complete.
use fastmcp.Prelude.{Text, txt, List, [], ◌∷◌, none, ◌≡◌, ◌≢◌, ◌↔◌, refl}
use fastmcp.Prelude.Dict.{get, put}
use fastmcp.Server.Template.{match_template}
use fastmcp.Server.Template.{compile_uri_template}
use fastmcp.Server.Template.Compile.{render, render-compile_uri_template}
use fastmcp.Server.Template.Matching.{Fits, match_template_iff}
use fastmcp.Server.Dispatch.Handlers.{read_with, read_uri}
use fastmcp.Server.Dispatch.Reads.{read_uri_first_match}
use fastmcp.Server.Codec.{CompleteParams}
use fastmcp.Tests.{demo_codec, demo_server, demo_world, call_of, user_template, post_template}

render-compile_uri_template_example :
    render (compile_uri_template (txt "users://{id}/posts")) ≡ txt "users://{id}/posts"
render-compile_uri_template_example = render-compile_uri_template (txt "users://{id}/posts")

match_template_iff_example :
    (match_template user_template.re (txt "users://7") ≢ none)
    ↔ ((caps : List Text) × Fits user_template.re caps (txt "users://7"))
match_template_iff_example = match_template_iff user_template.re (txt "users://7")

read_uri_first_match_example :
    read_uri demo_codec demo_server (call_of (txt "resources/read") []) (txt "users://7") demo_world
    ≡ read_with demo_codec
        (call_of (txt "resources/read") [])
        (txt "users://7")
        user_template.mime_type
        user_template.reader
        ((txt "id", txt "7") ∷ [])
        demo_world
unfolding match_template get put
read_uri_first_match_example =
    read_uri_first_match demo_codec (call_of (txt "resources/read") []) (txt "users://7") demo_world
      demo_server (post_template ∷ []) [] user_template ((txt "id", txt "7") ∷ []) refl refl
      (refl, tt) refl

abbrev asked : CompleteParams
asked = record {
  ref = record { type = txt "ref/prompt"; name = txt "hello"; uri = [] };
  argument = record { name = txt "name"; value = [] };
}
