-- ===== src/JsonSchema/Dereference/Inlined.antt =====
-- jsonschema/refs.go: what inlineDefs makes of a value.
use fastmcp.Prelude.{
  ℕ, Text, text_eq, text_eq_iff, Bool, false, List, [], ◌∷◌, Option, none, some, ◌≡◌, inl, inr,
  refl, subst, sym, ◌∙◌, Bool-cases, Option-cases,
}
use fastmcp.Json.{
  Json, null, boolean, number, string, array, object, Items, no_items, item_then, Members,
  no_members, member_then,
}
use fastmcp.JsonSchema.{find, as_map, members_of}
use fastmcp.JsonSchema.Unused.{is_used, own_name}
use fastmcp.JsonSchema.Unused.Refers.{Refers, ReferIn, ReferAmong, IsUsed, Leads}
use fastmcp.JsonSchema.Dereference.{
  target_of, write_siblings, over_target, inline_step, inline_members, inline_items,
}
use fastmcp.JsonSchema.Dereference.Chains.{Chain, one, more}

-- the steps of inlineDefs, without fuel and active names
mutual
  pub data Inlining (defs : Members) : Json → Json → Type 0 where
    no_null : Inlining defs null null
    no_boolean : (b : Bool) → Inlining defs (boolean b) (boolean b)
    no_number : (n : ℕ) → Inlining defs (number n) (number n)
    no_string : (s : Text) → Inlining defs (string s) (string s)
    each : {vs ws : Items} → InliningItems defs vs ws → Inlining defs (array vs) (array ws)
    unreferred :
        {ms ns : Members}
        → target_of defs [] ms ≡ none
        → InliningMembers defs ms ns
        → Inlining defs (object ms) (object ns)
    referred :
        {ms ns target resolved : Members} {name : Text}
        → target_of defs [] ms ≡ some (name, target)
        → Inlining defs (object target) (object resolved)
        → InliningMembers defs ms ns
        → Inlining defs (object ms) (object (write_siblings ns resolved))

  pub data InliningMembers (defs : Members) : Members → Members → Type 0 where
    nothing_more : InliningMembers defs no_members no_members
    member_too :
        {k : Text} {v w : Json} {ms ns : Members}
        → Inlining defs v w
        → InliningMembers defs ms ns
        → InliningMembers defs (member_then k v ms) (member_then k w ns)

  pub data InliningItems (defs : Members) : Items → Items → Type 0 where
    nothing_left : InliningItems defs no_items no_items
    item_too :
        {v w : Json} {vs ws : Items}
        → Inlining defs v w
        → InliningItems defs vs ws
        → InliningItems defs (item_then v vs) (item_then w ws)

as_map-object : (o : Option Json) (ms : Members) → as_map o ≡ some ms → o ≡ some (object ms)
as_map-object none ms e = cc
as_map-object (some (object ns)) ms e = cc
as_map-object (some null) ms e = cc
as_map-object (some (boolean b)) ms e = cc
as_map-object (some (number n)) ms e = cc
as_map-object (some (string s)) ms e = cc
as_map-object (some (array vs)) ms e = cc

Chain-snoc : (defs : Members) (a n m : Text) → Chain defs a n → Leads defs n m → Chain defs a m
Chain-snoc defs a n m (one l) k = more l (one k)
Chain-snoc defs a n m (more l c) k = more l (Chain-snoc defs _ n m c k)

object-Inlining :
    (defs t : Members) (w : Json) → Inlining defs (object t) w → (r : Members) × (w ≡ object r)
object-Inlining defs t w (unreferred e i) = (_, refl)
object-Inlining defs t w (referred e r i) = (_, refl)

module _ (defs : Members) (active : List Text) (ms : Members) where
  target_of-inactive :
      ((m : Text) → own_name ms ≡ some m → is_used active m ≡ false)
      → target_of defs active ms ≡ target_of defs [] ms
  unfolding target_of is_used
  target_of-inactive h = elim (Option-cases (own_name ms)) [
    | inl e ↦ rw (e, target_of) refl
    | inr (m, e) ↦ rw (e, h m e, target_of) refl
  ]

  -- what a target is
  pub target_of-found :
      (name : Text) (target : Members)
      → target_of defs active ms ≡ some (name, target)
      → (own_name ms ≡ some name)
        × (is_used active name ≡ false)
        × (find name defs ≡ some (object target))
  unfolding target_of
  target_of-found name target e = elim (Option-cases (own_name ms)) [
    | inl q ↦ let f = rw (q, target_of) at e in cc
    | inr (m, q) ↦ elim (Bool-cases (is_used active m)) [
      | inl u ↦ let f = rw (q, u, target_of) at e in cc
      | inr u ↦ elim (Option-cases (as_map (find m defs))) [
        | inl a ↦ let f = rw (q, u, a, target_of) at e in cc
        | inr (t, a) ↦
            let f = rw (q, u, a, target_of) at e in
            let same : m ≡ name = cc in let found = as_map-object (find m defs) t a in (cc, cc, cc)
      ]
    ]
  ]

-- every active definition leads to what the value refers to
unfoldable pub Guards : Members → List Text → (Text → Type 0) → Type 0
Guards defs active refers = (a m : Text) → IsUsed active a → refers m → Chain defs a m

module _ (defs : Members) (acyclic : (a : Text) → ¬ Chain defs a a) where
  inactive :
      (active : List Text) (ms : Members)
      → Guards defs active (λ m. Refers m (object ms))
      → (m : Text) → own_name ms ≡ some m
      → is_used active m ≡ false
  unfolding Guards Refers
  inactive active ms g m e = elim (Bool-cases (is_used active m)) [
    | inl u ↦ absurd (acyclic m (g m m u (inl e)))
    | inr u ↦ u
  ]

  Guards-target :
      (active : List Text) (name : Text) (target : Members)
      → find name defs ≡ some (object target)
      → ((a : Text) → IsUsed active a → Chain defs a name)
      → Guards defs (name ∷ active) (λ m. Refers m (object target))
  unfolding Guards Leads is_used
  Guards-target active name target f g a m u r =
      let l : Leads defs name m = (object target, f, r) in
      elim (Bool-cases (text_eq name a)) [
        | inl s ↦ subst (λ x. Chain defs x m) ((text_eq_iff name a).0 s) (one l)
        | inr s ↦ Chain-snoc defs a name m (g a (rw s at u)) l
      ]

  module _ (active : List Text) (into : Text → Members → Json)
      (inlined : (name : Text) (target : Members)
        → is_used active name ≡ false
        → find name defs ≡ some (object target)
        → Guards defs (name ∷ active) (λ m. Refers m (object target))
        → Inlining defs (object target) (into name target)) where
    followed_target :
        (ms ns : Members) (name : Text) (target : Members)
        → Guards defs active (λ m. Refers m (object ms))
        → target_of defs active ms ≡ some (name, target)
        → InliningMembers defs ms ns
        → Inlining defs (object ms) (object (write_siblings ns (members_of (into name target))))
    unfolding Guards Refers
    followed_target ms ns name target g e i =
        let (own, fresh, found) = target_of-found defs active ms name target e in
        let done =
          inlined name target fresh found
            (Guards-target active name target found (λ a u. g a name u (inl own))) in
        let (r, same) = object-Inlining defs target (into name target) done in
        let plain = sym (target_of-inactive defs active ms (inactive active ms g)) ∙ e in
        rw same (referred plain (subst (Inlining defs (object target)) same done) i)

    mutual
      unfolding inline_step over_target Guards Refers

      pub inline_step-Inlining :
          (v : Json)
          → Guards defs active (λ m. Refers m v)
          → Inlining defs v (inline_step defs active into v)
      inline_step-Inlining (object ms) g =
          let i = inline_members-InliningMembers ms (λ a m u r. g a m u (inr r)) in
          elim (Option-cases (target_of defs active ms)) [
            | inl e ↦
                rw e (
                  unreferred (sym (target_of-inactive defs active ms (inactive active ms g)) ∙ e) i)
            | inr ((name, target), e) ↦ rw e (followed_target ms _ name target g e i)
          ]
      inline_step-Inlining (array vs) g = each (inline_items-InliningItems vs g)
      inline_step-Inlining null g = no_null
      inline_step-Inlining (boolean b) g = no_boolean b
      inline_step-Inlining (number n) g = no_number n
      inline_step-Inlining (string s) g = no_string s

      inline_members-InliningMembers :
          (ms : Members)
          → Guards defs active (λ m. ReferIn m ms)
          → InliningMembers defs ms (inline_members defs active into ms)
      inline_members-InliningMembers no_members g = nothing_more
      inline_members-InliningMembers (member_then k v ms) g =
          member_too (inline_step-Inlining v (λ a m u r. g a m u (inl r)))
            (inline_members-InliningMembers ms (λ a m u r. g a m u (inr r)))

      inline_items-InliningItems :
          (vs : Items)
          → Guards defs active (λ m. ReferAmong m vs)
          → InliningItems defs vs (inline_items defs active into vs)
      inline_items-InliningItems no_items g = nothing_left
      inline_items-InliningItems (item_then v vs) g =
          item_too (inline_step-Inlining v (λ a m u r. g a m u (inl r)))
            (inline_items-InliningItems vs (λ a m u r. g a m u (inr r)))
