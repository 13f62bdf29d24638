-- ===== src/Mount/Compose/Templates.antt =====
-- Composing a child's resource templates, of mount/mount.go, against those that the parent has.
use fastmcp.Prelude.{
  Text, Bool, true, false, List, [], ◌∷◌, ◌++◌, none, txt, Result, done, failed, Slot, Option-cases,
  inl, inr, ◌≡◌, ◌≢◌, ◌⊎◌, refl, sym,
}
use mathlib.Core.List.{append-nil}
use fastmcp.Session.{World}
use fastmcp.Server.{Server, Context, TemplateEntry, resource_template}
use fastmcp.Server.Codec.{Codec}
use fastmcp.Server.Template.{match_template}
use fastmcp.Server.Dispatch.Handlers.{read_templates}
use fastmcp.Http.{HttpCodec}
use fastmcp.Mount.{MountConfig, resolve, prefix_uri}
use fastmcp.Mount.Delegate.{Wire, ResourceInfo}
use fastmcp.Mount.Compose.{Composing, compose_template, proceed}

-- some template of a list matches
abbrev pub IsMatched : {W : Type 0} → Text → List (TemplateEntry W) → Type 0
IsMatched uri [] = ⊥
IsMatched uri (t ∷ ts) = (match_template t.re uri ≢ none) ⊎ IsMatched uri ts

read_templates-append :
    {W : Type 0} (lib : Codec) (c : Context) (uri : Text) (ts us : List (TemplateEntry W))
    → IsMatched uri ts
    → read_templates lib c uri (ts ++ us) ≡ read_templates lib c uri ts
unfolding read_templates
read_templates-append lib c uri [] us h = absurd h
read_templates-append lib c uri (t ∷ ts) us h = elim (Option-cases (match_template t.re uri)) [
  | inr (vars, e) ↦ rw (e, read_templates) refl
  | inl e ↦ elim h [
    | inl m ↦ absurd (m e)
    | inr later ↦ rw (e, read_templates) (read_templates-append lib c uri ts us later)
  ]
]

module _ {W V : Type 0} (lib : Codec) (json : HttpCodec) (wire : Wire) (child : Server V)
    (slot : Slot (World W) (World V)) (prefix : Text) (cfg : MountConfig) where
  abbrev Grows : Composing W → Composing W → Type 0
  Grows old new =
      (us : List (TemplateEntry W)) × (new.parent.templates ≡ old.parent.templates ++ us)

  proceed-Grows :
      (r : Result Bool) (new old : Composing W)
      → Grows old new
      → Grows old (proceed lib json wire child slot prefix cfg r new old).1
  proceed-Grows (failed m) new old g = ([], sym (append-nil old.parent.templates))
  proceed-Grows (done false) new old g = ([], sym (append-nil old.parent.templates))
  proceed-Grows (done true) new old g = g

  compose_template-Grows :
      (info : ResourceInfo) (st : Composing W)
      → Grows st (compose_template lib json wire child slot prefix cfg info st).1
  unfolding compose_template resource_template
  compose_template-Grows info st =
      proceed-Grows
        (resolve st.taken.templates (prefix_uri info.uri prefix cfg.resource_style)
          (txt "resource template") cfg.on_collision).0
        _ st (_, refl)

  -- Whatever the policy, collision_overwrite included, a URI that a template of the parent matches is read
  -- as before a template of the child was composed.
  pub compose_template-read_templates :
      (info : ResourceInfo) (st : Composing W) (c : Context) (uri : Text)
      → IsMatched uri st.parent.templates
      → read_templates lib c uri
          (compose_template lib json wire child slot prefix cfg info st).1.parent.templates
        ≡ read_templates lib c uri st.parent.templates
  compose_template-read_templates info st c uri h =
      let (us, e) = compose_template-Grows info st in
      rw e (read_templates-append lib c uri st.parent.templates us h)
