-- ===== src/JsonSchema/Dereference/Flat.antt =====
-- jsonschema/refs.go: what inlineDefs leaves has no reference to a definition, and its fuel is enough.
use fastmcp.Prelude.{
  sym, ℕ, zero, suc, ◌<◌, Text, txt, text_eq, length, false, List, [], ◌∷◌, some, ◌≡◌, inl, inr,
  refl, ap, ◌∙◌, arith, Bool-cases,
}
use fastmcp.Json.{
  Json, null, boolean, number, string, array, object, Items, no_items, item_then, Members,
  no_members, member_then,
}
use fastmcp.JsonSchema.{find, as_text, write_member}
use fastmcp.JsonSchema.Unused.{is_used, own_name, local_name}
use fastmcp.JsonSchema.Unused.Refers.{Refers, IsUsed}
use fastmcp.JsonSchema.Unused.Marks.{unmarked, unmarked_bounded, unmarked-less}
use fastmcp.JsonSchema.Dereference.{
  target_of, write_siblings, names_in, inline_to, inline_defs, has_circular_def_ref,
}
use fastmcp.JsonSchema.Dereference.Reference.{
  RefersNowhere, Inlines, Inlining-Inlines, find-write_siblings, target_of-RefersNowhere,
}
use fastmcp.JsonSchema.Dereference.Chains.{Chain}
use fastmcp.JsonSchema.Dereference.Cycles.{not_circular}
use fastmcp.JsonSchema.Dereference.Inlined.{
  Inlining, no_null, no_boolean, no_number, no_string, each, unreferred, referred, InliningMembers,
  nothing_more, member_too, InliningItems, nothing_left, item_too, Guards, inline_step-Inlining,
}

names_in-find :
    (defs : Members) (name : Text) (v : Json)
    → find name defs ≡ some v
    → IsUsed (names_in defs) name
unfolding find names_in is_used
names_in-find no_members name v e = cc
names_in-find (member_then k w defs) name v e = elim (Bool-cases (text_eq k name)) [
  | inl s ↦ rw s refl
  | inr s ↦ rw s (names_in-find defs name v (rw s at e))
]

module _ (defs : Members) (acyclic : (a : Text) → ¬ Chain defs a a) where
  inline_to-Inlining :
      (n : ℕ) (active : List Text) (v : Json)
      → unmarked (names_in defs) active < n
      → Guards defs active (λ m. Refers m v)
      → Inlining defs v (inline_to defs n active v)
  unfolding inline_to
  inline_to-Inlining zero active v b g = ground arith
  inline_to-Inlining (suc n) active v b g =
      inline_step-Inlining defs acyclic active _
        (λ name target fresh found guards.
          let less =
            unmarked-less (names_in defs) active name fresh
              (names_in-find defs name (object target) found) in
          inline_to-Inlining n (name ∷ active) (object target) (omega (arith, less)) guards)
        v g

mutual
  -- no object in it, at any depth, has a reference to a definition that is an object
  pub IsFlat : Members → Json → Type 0
  IsFlat defs (object ms) = RefersNowhere defs ms × AreFlat defs ms
  IsFlat defs (array vs) = AllFlat defs vs
  IsFlat defs null = Unit
  IsFlat defs (boolean b) = Unit
  IsFlat defs (number n) = Unit
  IsFlat defs (string s) = Unit

  pub AreFlat : Members → Members → Type 0
  AreFlat defs no_members = Unit
  AreFlat defs (member_then k v ms) = IsFlat defs v × AreFlat defs ms

  pub AllFlat : Members → Items → Type 0
  AllFlat defs no_items = Unit
  AllFlat defs (item_then v vs) = IsFlat defs v × AllFlat defs vs

module _ (defs : Members) where
  AreFlat-write_member :
      (k : Text) (v : Json) (ms : Members)
      → IsFlat defs v
      → AreFlat defs ms
      → AreFlat defs (write_member k v ms)
  unfolding write_member AreFlat
  AreFlat-write_member k v no_members f g = (f, tt)
  AreFlat-write_member k v (member_then j w ms) f g = elim (Bool-cases (text_eq j k)) [
    | inl e ↦ rw e (f, g.1)
    | inr e ↦ rw e (g.0, AreFlat-write_member k v ms f g.1)
  ]

  AreFlat-write_siblings :
      (ns rs : Members) → AreFlat defs ns → AreFlat defs rs → AreFlat defs (write_siblings ns rs)
  unfolding write_siblings AreFlat
  AreFlat-write_siblings no_members rs f g = g
  AreFlat-write_siblings (member_then k v ns) rs f g = elim (Bool-cases (text_eq k (txt "$ref"))) [
    | inl e ↦ rw e (AreFlat-write_siblings ns rs f.1 g)
    | inr e ↦
        rw e
          (AreFlat-write_member k v (write_siblings ns rs) f.0 (AreFlat-write_siblings ns rs f.1 g))
  ]

  target_of-same :
      (ms ns : Members)
      → as_text (find (txt "$ref") ns) ≡ as_text (find (txt "$ref") ms)
      → target_of defs [] ns ≡ target_of defs [] ms
  unfolding own_name target_of
  target_of-same ms ns e =
      let own : own_name ns ≡ own_name ms = ap local_name e in rw (own, target_of) refl

  as_text-Inlining : (v w : Json) → Inlining defs v w → as_text (some w) ≡ as_text (some v)
  as_text-Inlining v w no_null = refl
  as_text-Inlining v w (no_boolean b) = refl
  as_text-Inlining v w (no_number n) = refl
  as_text-Inlining v w (no_string s) = refl
  as_text-Inlining v w (each i) = refl
  as_text-Inlining v w (unreferred e i) = refl
  as_text-Inlining v w (referred e r i) = refl

  as_text-InliningMembers :
      (ms ns : Members)
      → InliningMembers defs ms ns
      → as_text (find (txt "$ref") ns) ≡ as_text (find (txt "$ref") ms)
  unfolding find
  as_text-InliningMembers ms ns nothing_more = refl
  as_text-InliningMembers ms ns (member_too {k} {v} {w} i is) =
      elim (Bool-cases (text_eq k (txt "$ref"))) [
        | inl e ↦ rw e (as_text-Inlining v w i)
        | inr e ↦ rw e (as_text-InliningMembers _ _ is)
      ]

  mutual
    unfolding IsFlat

    Inlining-IsFlat : (v w : Json) → Inlining defs v w → IsFlat defs w
    Inlining-IsFlat v w no_null = tt
    Inlining-IsFlat v w (no_boolean b) = tt
    Inlining-IsFlat v w (no_number n) = tt
    Inlining-IsFlat v w (no_string s) = tt
    Inlining-IsFlat v w (each i) = InliningItems-AllFlat _ _ i
    Inlining-IsFlat v w (unreferred {ms} {ns} e i) = (
      target_of-RefersNowhere defs ns (target_of-same ms ns (as_text-InliningMembers ms ns i) ∙ e),
      InliningMembers-AreFlat ms ns i,
    )
    Inlining-IsFlat v w (referred {ms} {ns} {target} {resolved} e r i) =
        let flat = Inlining-IsFlat (object target) (object resolved) r in
        (
          λ name t (at, found). flat.0 name t (sym (find-write_siblings ns resolved) ∙ at, found),
          AreFlat-write_siblings ns resolved (InliningMembers-AreFlat ms ns i) flat.1,
        )

    InliningMembers-AreFlat : (ms ns : Members) → InliningMembers defs ms ns → AreFlat defs ns
    InliningMembers-AreFlat ms ns nothing_more = tt
    InliningMembers-AreFlat ms ns (member_too i is) =
        (Inlining-IsFlat _ _ i, InliningMembers-AreFlat _ _ is)

    InliningItems-AllFlat : (vs ws : Items) → InliningItems defs vs ws → AllFlat defs ws
    InliningItems-AllFlat vs ws nothing_left = tt
    InliningItems-AllFlat vs ws (item_too i is) =
        (Inlining-IsFlat _ _ i, InliningItems-AllFlat _ _ is)

-- If hasCircularDefRef finds no cycle, inlineDefs inlines every reference to a definition that is an object,
-- at any depth, also in what it inlines, with the members next to a reference over those of the definition,
-- and leaves no such reference.
pub inline_defs-Inlines :
    (defs : Members) (v : Json)
    → has_circular_def_ref defs ≡ false
    → Inlines defs v (inline_defs defs v) × IsFlat defs (inline_defs defs v)
unfolding inline_defs Guards is_used
inline_defs-Inlines defs v h =
    let inlined =
      inline_to-Inlining defs (not_circular defs h) (suc (length (names_in defs))) [] v
        (omega (arith, unmarked_bounded (names_in defs) [])) (λ a m u r. cc) in
    (
      Inlining-Inlines defs v (inline_defs defs v) inlined,
      Inlining-IsFlat defs v (inline_defs defs v) inlined,
    )
