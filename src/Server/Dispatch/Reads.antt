-- ===== src/Server/Dispatch/Reads.antt =====
-- resources/read of dispatch.go: static resources first, then the templates in their order.
use fastmcp.Prelude.{Text, txt, All, List, [], ◌∷◌, ◌++◌, none, some, err, ◌≡◌, refl, ◌∙◌}
use fastmcp.Prelude.Dict.{Dict, get}
use fastmcp.Rpc.{new_error}
use fastmcp.Rpc.Codes.{err_invalid_params}
use fastmcp.Session.{World}
use fastmcp.Server.{Server, Context, ResourceEntry, TemplateEntry}
use fastmcp.Server.Codec.{Codec}
use fastmcp.Server.Template.{match_template}
use fastmcp.Server.Dispatch.Handlers.{read_with, read_templates, read_uri}

-- No template of the list matches the URI.
abbrev pub Misses : {W : Type 0} → Text → List (TemplateEntry W) → Type 0
Misses uri ts = All (λ t. match_template t.re uri ≡ none) ts

module _ {W : Type 0} (lib : Codec) (c : Context) (uri : Text) (w : World W) where
  read_templates-append :
      (before after : List (TemplateEntry W))
      → Misses uri before
      → read_templates lib c uri (before ++ after) w ≡ read_templates lib c uri after w
  unfolding read_templates
  read_templates-append [] after h = refl
  read_templates-append (t ∷ ts) after h =
      rw (h.0, read_templates) (read_templates-append ts after h.1)

  read_templates-miss :
      (ts : List (TemplateEntry W))
      → Misses uri ts
      → read_templates lib c uri ts w
        ≡ (err (new_error err_invalid_params (txt "unknown resource: " ++ uri)), w)
  unfolding read_templates
  read_templates-miss [] h = refl
  read_templates-miss (t ∷ ts) h = rw (h.0, read_templates) (read_templates-miss ts h.1)

  -- A URI that is registered is read by its own resource, whatever the templates.
  pub read_uri_static :
      (s : Server W) (r : ResourceEntry W)
      → get uri s.resources ≡ some r
      → read_uri lib s c uri w ≡ read_with lib c uri r.mime_type r.reader tt w
  unfolding read_uri
  read_uri_static s r e = rw (e, read_uri)

  -- A URI that is not registered is read by the first template that matches it, in the order of
  -- registration, with the parameters of that match.
  pub read_uri_first_match :
      (s : Server W) (before after : List (TemplateEntry W)) (t : TemplateEntry W)
      (vars : Dict Text)
      → get uri s.resources ≡ none
      → s.templates ≡ before ++ t ∷ after
      → Misses uri before
      → match_template t.re uri ≡ some vars
      → read_uri lib s c uri w ≡ read_with lib c uri t.mime_type t.reader vars w
  unfolding read_uri
  read_uri_first_match s before after t vars e ts h m =
      rw (e, read_uri, ts)
        (read_templates-append before (t ∷ after) h
          ∙ unfold read_templates in rw (m, read_templates))

  -- A URI that is neither registered nor matched by a template is the error -32602, and nothing runs.
  pub read_uri_unknown :
      (s : Server W)
      → get uri s.resources ≡ none
      → Misses uri s.templates
      → read_uri lib s c uri w
        ≡ (err (new_error err_invalid_params (txt "unknown resource: " ++ uri)), w)
  unfolding read_uri
  read_uri_unknown s e h = rw (e, read_uri) (read_templates-miss s.templates h)
