-- ===== src/Mount/Compose/Tools.antt =====
-- Composing a child's tools, of mount/mount.go, from their listing on.
use fastmcp.Prelude.{Text, List, ok, Slot, ◌≡◌, ◌≢◌, ◌↔◌, refl, sym, ◌∙◌, if◌then◌else◌}
use fastmcp.Prelude.Dict.{get}
use fastmcp.Session.{World}
use fastmcp.Server.{Server}
use fastmcp.Server.Codec.{Codec}
use fastmcp.Server.Registry.{mem_text}
use fastmcp.Http.{HttpCodec}
use fastmcp.Mount.{MountConfig, collision_error, collision_overwrite}
use fastmcp.Mount.Delegate.{Wire, ToolInfo, list_tools}
use fastmcp.Mount.Compose.{Composing, compose_tools}
use fastmcp.Mount.Compose.Collisions.{
  compose_each, IsFree, first_or, last_or, compose_each-ok_iff, compose_each-overwrite,
  compose_each-keep,
}

module _ {W V : Type 0} (lib : Codec) (json : HttpCodec) (wire : Wire) (child : Server V)
    (slot : Slot (World W) (World V)) (prefix : Text) (cfg : MountConfig) (infos : List ToolInfo)
    (v : World V) (st : Composing W)
    (listed : list_tools lib json wire child (slot.read st.world) ≡ (ok infos, v)) where
  -- the state behind the listing
  abbrev after_list : Composing W
  after_list = record st { world = slot.write v st.world }

  compose_tools-each :
      compose_tools lib json wire child slot prefix cfg st
      ≡ compose_each lib json wire child slot prefix cfg infos after_list
  unfolding compose_tools
  compose_tools-each = rw listed refl

  -- Under collision_error the tools that the child lists are composed without an error exactly if each
  -- prefixed name is free when its turn comes.
  pub compose_tools-ok_iff :
      cfg.on_collision ≡ collision_error
      → ((st' : Composing W) × (compose_tools lib json wire child slot prefix cfg st
            ≡ (ok tt, st')))
        ↔ IsFree lib json wire child slot prefix cfg st.taken.tools infos
  compose_tools-ok_iff p =
      let (to, from) = compose_each-ok_iff lib json wire child slot prefix cfg p infos after_list in
      (
        λ run. to (run.0, sym compose_tools-each ∙ run.1),
        λ free. let (st', e) = from free in (st', compose_tools-each ∙ e),
      )

  -- Under collision_overwrite composing the tools that the child lists succeeds, and each name of the
  -- parent goes to the last of them that has it, or keeps its entry.
  pub compose_tools-overwrite :
      cfg.on_collision ≡ collision_overwrite
      → (st' : Composing W) × (compose_tools lib json wire child slot prefix cfg st ≡ (ok tt, st'))
        × ((k : Text)
            → get k st'.parent.tools
              ≡ last_or lib json wire child slot prefix cfg k infos (get k st.parent.tools))
  compose_tools-overwrite p =
      let (st', e, lookups) =
        compose_each-overwrite lib json wire child slot prefix cfg p infos after_list in
      (st', compose_tools-each ∙ e, lookups)

  -- Under the other policies, if composing the tools that the child lists succeeds, each name that was
  -- taken has the entry that it had, and each other name the first of the tools that has it, or the entry
  -- that it had.
  pub compose_tools-keep :
      (st' : Composing W)
      → cfg.on_collision ≢ collision_overwrite
      → compose_tools lib json wire child slot prefix cfg st ≡ (ok tt, st')
      → (k : Text)
      → get k st'.parent.tools ≡ (
          if mem_text k st.taken.tools
          then get k st.parent.tools
          else first_or lib json wire child slot prefix cfg k infos (get k st.parent.tools))
  compose_tools-keep st' p run k =
      compose_each-keep lib json wire child slot prefix cfg infos after_list st' p
        (sym compose_tools-each ∙ run) k
