-- ===== src/JsonSchema/Dereference/Chains.antt =====
-- jsonschema/refs.go: where defReaches finds its start, a chain of references leads to it.
use fastmcp.Prelude.{
  ℕ, zero, suc, Text, text_eq, text_eq_iff, Bool, true, false, not, ◌&&◌, List, [], ◌∷◌, ◌≡◌, ◌⊎◌,
  inl, inr, refl, subst, arith, Bool-cases,
}
use fastmcp.Json.{Members}
use fastmcp.JsonSchema.Unused.{is_used, follow_one}
use fastmcp.JsonSchema.Unused.Refers.{IsUsed, IsUsed_head, Leads, follow_one_iff}
use fastmcp.JsonSchema.Dereference.{search_each, search_step, def_reaches}

-- a chain of references, of one at least, leads from the definition with the first name to the second
pub data Chain (defs : Members) : Text → Text → Type 0 where
  one : {n m : Text} → Leads defs n m → Chain defs n m
  more : {n k m : Text} → Leads defs n k → Chain defs k m → Chain defs n m

module _ (defs : Members) (start : Text) where
  -- an answer is right about a name
  abbrev IsSound : Text → Bool × List Text → Type 0
  IsSound cur r = r.0 ≡ true → (cur ≡ start) ⊎ Chain defs cur start

  Leads-to_start :
      (cur next : Text)
      → Leads defs cur next
      → (next ≡ start) ⊎ Chain defs next start
      → Chain defs cur start
  Leads-to_start cur next l (inl e) = one (subst (Leads defs cur) e l)
  Leads-to_start cur next l (inr c) = more l c

  search_each-IsSound :
      (go : Text → List Text → Bool × List Text)
      → ((next : Text) (seen : List Text) → IsSound next (go next seen))
      → (cur : Text) (names seen : List Text)
      → ((next : Text) → IsUsed names next → Leads defs cur next)
      → (search_each start go names seen).0 ≡ true
      → Chain defs cur start
  unfolding search_each is_used
  search_each-IsSound go h cur [] seen l e = cc
  search_each-IsSound go h cur (next ∷ names) seen l e =
      let here = l next (IsUsed_head next names) in
      elim (Bool-cases (text_eq next start)) [
        | inl q ↦ Leads-to_start cur next here (inl ((text_eq_iff next start).0 q))
        | inr q ↦ elim (Bool-cases (go next seen).0) [
          | inl f ↦ Leads-to_start cur next here (h next seen f)
          | inr f ↦
              let rest = rw (q, f, search_each) at e in
              search_each-IsSound go h cur names (go next seen).1 (λ x u. l x (ground (arith, u)))
                rest
        ]
      ]

  pub Leads-follow_one : (cur m : Text) → IsUsed (follow_one defs cur []) m → Leads defs cur m
  unfolding is_used
  Leads-follow_one cur m u = elim ((follow_one_iff defs cur [] m).0 u) [ inl l ↦ l | inr v ↦ cc ]

  search_step-Chain :
      (go : Text → List Text → Bool × List Text)
      → ((next : Text) (seen : List Text) → IsSound next (go next seen))
      → (cur : Text) (first : Bool) (seen : List Text) → (not first && text_eq cur start) ≡ false
      → (search_step defs start go cur first seen).0 ≡ true
      → Chain defs cur start
  unfolding search_step
  search_step-Chain go h cur first seen new e = elim (Bool-cases (is_used seen cur)) [
    | inl u ↦ let f = rw (new, u, search_step) at e in cc
    | inr u ↦
        let f = rw (new, u, search_step) at e in
        search_each-IsSound go h cur (follow_one defs cur []) (cur ∷ seen) (Leads-follow_one cur) f
  ]

  def_reaches-IsSound :
      (n : ℕ) (cur : Text) (first : Bool) (seen : List Text)
      → IsSound cur (def_reaches defs start n cur first seen)
  unfolding def_reaches
  def_reaches-IsSound zero cur first seen e = cc
  def_reaches-IsSound (suc n) cur first seen e =
      elim (Bool-cases (not first && text_eq cur start)) [
        | inl q ↦ inl (ground (arith, text_eq_iff cur start))
        | inr q ↦ inr (
            search_step-Chain _ (λ next later. def_reaches-IsSound n next false later) cur first
              seen q e)
      ]

  pub def_reaches-Chain :
      (n : ℕ) (seen : List Text)
      → (def_reaches defs start n start true seen).0 ≡ true
      → Chain defs start start
  unfolding def_reaches
  def_reaches-Chain zero seen e = cc
  def_reaches-Chain (suc n) seen e =
      search_step-Chain _ (λ next later. def_reaches-IsSound n next false later) start true seen
        refl e
