-- ===== src/Mount/Compose/Collisions.antt =====
-- What the collision policies of mount/mount.go let a child's tools do to the parent's.
use fastmcp.Prelude.{
  Text, txt, text_eq, text_eq_iff, true, false, List, [], ◌∷◌, ◌++◌, Option, some, Outcome, ok, err,
  Slot, ◌≡◌, ◌≢◌, ◌↔◌, ◌⊎◌, inl, inr, refl, sym, ap, ◌∙◌, arith, Bool-cases, if◌then◌else◌,
}
use fastmcp.Prelude.Dict.{get, get-put}
use fastmcp.Session.{World}
use fastmcp.Server.{Server, ToolEntry, register_tool}
use fastmcp.Server.Codec.{Codec}
use fastmcp.Server.Registry.{mem_text}
use fastmcp.Http.{HttpCodec}
use fastmcp.Mount.{
  MountConfig, CollisionPolicy, collision_error, collision_skip, collision_overwrite,
  effective_separator, prefix_name, resolve, clash_text,
}
use fastmcp.Mount.Delegate.{Wire, ToolInfo}
use fastmcp.Mount.Compose.{Composing, delegating_tool, compose_tool, for_each}

policy_cases :
    (p : CollisionPolicy) → p ≢ collision_overwrite → (p ≡ collision_skip) ⊎ (p ≡ collision_error)
policy_cases collision_error h = inr refl
policy_cases collision_skip h = inl refl
policy_cases collision_overwrite h = absurd (h refl)

module _ {W V : Type 0} (lib : Codec) (json : HttpCodec) (wire : Wire) (child : Server V)
    (slot : Slot (World W) (World V)) (prefix : Text) (cfg : MountConfig) where
  abbrev pub mounted_name : ToolInfo → Text
  mounted_name info = prefix_name prefix info.name (effective_separator cfg)

  abbrev pub delegating : ToolInfo → ToolEntry W
  delegating info = delegating_tool lib json wire child slot prefix cfg (mounted_name info) info

  -- the parent's entry under a name after tools of the child were put over it, the first of a name before
  -- the others
  unfoldable pub first_or : Text → List ToolInfo → Option (ToolEntry W) → Option (ToolEntry W)
  first_or k [] o = o
  first_or k (info ∷ infos) o =
      if text_eq (mounted_name info) k then some (delegating info) else first_or k infos o

  -- and the last of a name
  unfoldable pub last_or : Text → List ToolInfo → Option (ToolEntry W) → Option (ToolEntry W)
  last_or k [] o = o
  last_or k (info ∷ infos) o =
      last_or k infos (if text_eq (mounted_name info) k then some (delegating info) else o)

  -- names that are free, each when its turn comes
  abbrev pub IsFree : List Text → List ToolInfo → Type 0
  IsFree taken [] = Unit
  IsFree taken (info ∷ infos) =
      (mem_text (mounted_name info) taken ≡ false) × IsFree (mounted_name info ∷ taken) infos

  abbrev compose_one : ToolInfo → Composing W → Outcome Text (Unit {0}) × Composing W
  compose_one = compose_tool lib json wire child slot prefix cfg

  abbrev registered : ToolInfo → Composing W → Composing W
  registered info st = record st {
    parent = register_tool (mounted_name info) (delegating info) st.parent;
    taken = record (st.taken) { tools = mounted_name info ∷ st.taken.tools };
    rec = record (st.rec) { tools = st.rec.tools ++ mounted_name info ∷ [] };
  }

  compose_tool-free :
      (info : ToolInfo) (st : Composing W)
      → mem_text (mounted_name info) st.taken.tools ≡ false
      → compose_one info st ≡ (ok tt, registered info st)
  unfolding compose_tool resolve
  compose_tool-free info st h = rw h refl

  compose_tool-skip :
      (info : ToolInfo) (st : Composing W)
      → mem_text (mounted_name info) st.taken.tools ≡ true
      → cfg.on_collision ≡ collision_skip
      → compose_one info st ≡ (ok tt, st)
  unfolding compose_tool resolve
  compose_tool-skip info st h p = rw h (rw p refl)

  compose_tool-error :
      (info : ToolInfo) (st : Composing W)
      → mem_text (mounted_name info) st.taken.tools ≡ true
      → cfg.on_collision ≡ collision_error
      → compose_one info st ≡ (err (clash_text (mounted_name info) (txt "tool")), st)
  unfolding compose_tool resolve
  compose_tool-error info st h p = rw h (rw p refl)

  -- on what is taken already, the name is not taken a second time
  abbrev overwritten : ToolInfo → Composing W → Composing W
  overwritten info st = record (registered info st) { taken = st.taken }

  compose_tool-overwrite :
      (info : ToolInfo) (st : Composing W)
      → mem_text (mounted_name info) st.taken.tools ≡ true
      → cfg.on_collision ≡ collision_overwrite
      → compose_one info st ≡ (ok tt, overwritten info st)
  unfolding compose_tool resolve
  compose_tool-overwrite info st h p = rw h (rw p refl)

  abbrev pub compose_each : List ToolInfo → Composing W → Outcome Text (Unit {0}) × Composing W
  compose_each infos = for_each compose_one infos

  compose_each-step :
      (info : ToolInfo) (infos : List ToolInfo) (st st1 : Composing W)
      → compose_one info st ≡ (ok tt, st1)
      → compose_each (info ∷ infos) st ≡ compose_each infos st1
  unfolding for_each
  compose_each-step info infos st st1 h = rw h refl

  compose_each-stop :
      (info : ToolInfo) (infos : List ToolInfo) (st : Composing W) (m : Text)
      → compose_one info st ≡ (err m, st)
      → compose_each (info ∷ infos) st ≡ (err m, st)
  unfolding for_each
  compose_each-stop info infos st m h = rw h refl

  get-registered :
      (k : Text) (info : ToolInfo) (st : Composing W)
      → get k (registered info st).parent.tools
        ≡ (if text_eq (mounted_name info) k then some (delegating info) else get k st.parent.tools)
  unfolding register_tool
  get-registered k info st = get-put (mounted_name info) k (delegating info) st.parent.tools

  -- Under collision_error a composition of tools succeeds exactly if each prefixed name is free when its
  -- turn comes.
  pub compose_each-ok_iff :
      cfg.on_collision ≡ collision_error
      → (infos : List ToolInfo) (st : Composing W)
      → ((st' : Composing W) × (compose_each infos st ≡ (ok tt, st'))) ↔ IsFree st.taken.tools infos
  unfolding for_each
  compose_each-ok_iff p [] st = (λ h. tt, λ h. (st, refl))
  compose_each-ok_iff p (info ∷ infos) st =
      elim (Bool-cases (mem_text (mounted_name info) st.taken.tools)) [
        | inl h ↦
            let stops = compose_each-stop info infos st _ (compose_tool-error info st h p) in
            (
              λ run. let clash : ⊥ = cc (ap (λ x. x.0) (sym stops ∙ run.1)) in absurd clash,
              λ free. let clash : ⊥ = cc (sym h ∙ free.0) in absurd clash,
            )
        | inr h ↦
            let steps =
              compose_each-step info infos st (registered info st) (compose_tool-free info st h) in
            let (to, from) = compose_each-ok_iff p infos (registered info st) in
            (
              λ run. (h, to (run.0, sym steps ∙ run.1)),
              λ free. let (st', e) = from free.1 in (st', steps ∙ e),
            )
      ]

  -- Under collision_overwrite it succeeds, and a name of the parent goes to the last tool that has it.
  pub compose_each-overwrite :
      cfg.on_collision ≡ collision_overwrite
      → (infos : List ToolInfo) (st : Composing W)
      → (st' : Composing W) × (compose_each infos st ≡ (ok tt, st'))
        × ((k : Text) → get k st'.parent.tools ≡ last_or k infos (get k st.parent.tools))
  unfolding for_each last_or
  compose_each-overwrite p [] st = (st, refl, λ k. refl)
  compose_each-overwrite p (info ∷ infos) st =
      elim (Bool-cases (mem_text (mounted_name info) st.taken.tools)) [
        | inl h ↦
            let (st', e, lookups) = compose_each-overwrite p infos (overwritten info st) in
            (
              st',
              compose_each-step info infos st (overwritten info st)
                    (compose_tool-overwrite info st h p)
                  ∙ e,
              λ k. lookups k ∙ ap (last_or k infos) (get-registered k info st),
            )
        | inr h ↦
            let (st', e, lookups) = compose_each-overwrite p infos (registered info st) in
            (
              st',
              compose_each-step info infos st (registered info st) (compose_tool-free info st h)
                  ∙ e,
              λ k. lookups k ∙ ap (last_or k infos) (get-registered k info st),
            )
      ]

  -- what a lookup gives then: the old entry under a name that was taken, else the first
  abbrev kept : Text → List Text → List ToolInfo → Option (ToolEntry W) → Option (ToolEntry W)
  kept k taken infos o = if mem_text k taken then o else first_or k infos o

  kept_taken :
      (k : Text) (info : ToolInfo) (infos : List ToolInfo) (taken : List Text)
      (o : Option (ToolEntry W))
      → mem_text (mounted_name info) taken ≡ true
      → kept k taken infos o ≡ kept k taken (info ∷ infos) o
  unfolding first_or
  kept_taken k info infos taken o h = elim (Bool-cases (mem_text k taken)) [
    | inl e ↦ rw e
    | inr e ↦
        let other : text_eq (mounted_name info) k ≡ false =
          ground (arith, text_eq_iff (mounted_name info) k) in
        rw e (rw other)
  ]

  kept_free :
      (k : Text) (info : ToolInfo) (infos : List ToolInfo) (taken : List Text)
      (o o' : Option (ToolEntry W))
      → mem_text (mounted_name info) taken ≡ false
      → o' ≡ (if text_eq (mounted_name info) k then some (delegating info) else o)
      → kept k (mounted_name info ∷ taken) infos o' ≡ kept k taken (info ∷ infos) o
  unfolding first_or mem_text
  kept_free k info infos taken o o' h e = elim (Bool-cases (text_eq (mounted_name info) k)) [
    | inl same ↦
        let absent : mem_text k taken ≡ false =
          rw (← (text_eq_iff (mounted_name info) k).0 same) h in
        rw same (rw absent (rw same at e))
    | inr other ↦ rw other (rw (rw other at e))
  ]

  compose_each-nil :
      (st st' : Composing W)
      → compose_each [] st ≡ (ok tt, st')
      → (k : Text) → get k st'.parent.tools ≡ kept k st.taken.tools [] (get k st.parent.tools)
  unfolding for_each first_or
  compose_each-nil st st' run k =
      let same : st ≡ st' = ap (λ x. x.1) run in
      elim (Bool-cases (mem_text k st.taken.tools)) [
        | inl e ↦ rw e (ap (λ x. get k x.parent.tools) (sym same))
        | inr e ↦ rw e (ap (λ x. get k x.parent.tools) (sym same))
      ]

  skips_or_stops :
      (info : ToolInfo) (infos : List ToolInfo) (st st' : Composing W)
      → mem_text (mounted_name info) st.taken.tools ≡ true
      → cfg.on_collision ≢ collision_overwrite
      → compose_each (info ∷ infos) st ≡ (ok tt, st')
      → cfg.on_collision ≡ collision_skip
  skips_or_stops info infos st st' h p run = elim (policy_cases cfg.on_collision p) [
    | inl e ↦ e
    | inr e ↦
        let stops = compose_each-stop info infos st _ (compose_tool-error info st h e) in
        let clash : ⊥ = cc (ap (λ x. x.0) (sym stops ∙ run)) in absurd clash
  ]

  -- Under the other policies a composition that succeeds leaves every name that was taken as it was, and
  -- gives a name that was not taken to the first tool that has it.
  pub compose_each-keep :
      (infos : List ToolInfo) (st st' : Composing W)
      → cfg.on_collision ≢ collision_overwrite
      → compose_each infos st ≡ (ok tt, st')
      → (k : Text)
      → get k st'.parent.tools ≡ (
          if mem_text k st.taken.tools
          then get k st.parent.tools
          else first_or k infos (get k st.parent.tools))
  compose_each-keep [] st st' p run k = compose_each-nil st st' run k
  compose_each-keep (info ∷ infos) st st' p run k =
      elim (Bool-cases (mem_text (mounted_name info) st.taken.tools)) [
        | inl h ↦
            let skips = compose_tool-skip info st h (skips_or_stops info infos st st' h p run) in
            let later =
              compose_each-keep infos st st' p
                (sym (compose_each-step info infos st st skips) ∙ run) k in
            later ∙ kept_taken k info infos st.taken.tools (get k st.parent.tools) h
        | inr h ↦
            let steps =
              compose_each-step info infos st (registered info st) (compose_tool-free info st h) in
            let later = compose_each-keep infos (registered info st) st' p (sym steps ∙ run) k in
            later
            ∙ kept_free k info infos st.taken.tools (get k st.parent.tools)
                (get k (registered info st).parent.tools) h (get-registered k info st)
      ]
