-- ===== src/JsonSchema/Dereference/Cycles.antt =====
-- jsonschema/refs.go: where defReaches finds nothing no chain leads to its start, and hasCircularDefRef.
use fastmcp.Prelude.{
  ℕ, zero, suc, ◌<◌, Text, text_eq, text_eq_iff, Bool, true, false, not, ◌&&◌, List, [], ◌∷◌, some,
  ◌≡◌, ◌≢◌, ◌↔◌, ◌⊎◌, inl, inr, refl, subst, arith, Bool-cases,
}
use fastmcp.Json.{Json, Members, no_members, member_then}
use fastmcp.JsonSchema.{find}
use fastmcp.JsonSchema.Unused.{is_used, follow_one, collect_members}
use fastmcp.JsonSchema.Unused.Refers.{
  IsUsed, IsUsed_head, Leads, follow_one_iff, ReferIn-find, collect_members_iff,
}
use fastmcp.JsonSchema.Unused.Marks.{unmarked, unmarked_bounded, unmarked-less, unmarked_mono}
use fastmcp.JsonSchema.Dereference.{
  search_each, search_step, def_reaches, enough_steps, circular_among, has_circular_def_ref,
}
use fastmcp.JsonSchema.Dereference.Chains.{Chain, one, more, def_reaches-Chain, Leads-follow_one}

module _ (defs : Members) (start : Text) where
  -- to the names that were seen the search adds only such whose references it has seen too, and of which
  -- none is the start
  record Searched (before later : List Text) : Type 0 where
    kept : (x : Text) → IsUsed before x → IsUsed later x
    added :
        (x : Text)
        → IsUsed later x
        → IsUsed before x ⊎ ((y : Text) → Leads defs x y → IsUsed later y × (y ≢ start))

  Searched-refl : (a : List Text) → Searched a a
  Searched-refl a = record { kept = λ x u. u; added = λ x u. inl u }

  Searched-trans : (a b c : List Text) → Searched a b → Searched b c → Searched a c
  Searched-trans a b c p q = record {
    kept = λ x u. q.kept x (p.kept x u);
    added = λ x u. elim (q.added x u) [
      | inr r ↦ inr r
      | inl v ↦ elim (p.added x v) [
        | inl w ↦ inl w
        | inr r ↦ inr (λ y l. (q.kept y (r y l).0, (r y l).1))
      ]
    ];
  }

  Searched-entered :
      (cur : Text) (seen later : List Text)
      → Searched (cur ∷ seen) later
      → ((y : Text) → Leads defs cur y → IsUsed later y × (y ≢ start))
      → Searched seen later × IsUsed later cur
  unfolding is_used
  Searched-entered cur seen later p known = (
    record {
      kept = λ x u. p.kept x (ground (arith, u));
      added = λ x u. elim (p.added x u) [
        | inr r ↦ inr r
        | inl v ↦ elim (Bool-cases (text_eq cur x)) [
          | inl s ↦ inr (
              subst (λ z. (y : Text) → Leads defs z y → IsUsed later y × (y ≢ start))
                ((text_eq_iff cur x).0 s) known)
          | inr s ↦ inl (rw s at v)
        ]
      ];
    },
    p.kept cur (IsUsed_head cur seen),
  )

  module _ (all : List Text) (n : ℕ) (go : Text → List Text → Bool × List Text) where
    -- the recursive call, of a name that can be met, where it finds nothing
    abbrev IsExhaustive : Type 0
    IsExhaustive =
        (cur : Text) (seen : List Text)
        → IsUsed all cur
        → unmarked all seen < n
        → (go cur seen).0 ≡ false
        → Searched seen (go cur seen).1 × IsUsed (go cur seen).1 cur

    search_each-Searched :
        IsExhaustive
        → (names seen : List Text) → ((x : Text) → IsUsed names x → IsUsed all x)
        → unmarked all seen < n
        → (search_each start go names seen).0 ≡ false
        → Searched seen (search_each start go names seen).1
          × ((x : Text)
              → IsUsed names x
              → IsUsed (search_each start go names seen).1 x × (x ≢ start))
    unfolding search_each is_used
    search_each-Searched h [] seen k b e = (Searched-refl seen, λ x u. cc)
    search_each-Searched h (next ∷ names) seen k b e = elim (Bool-cases (text_eq next start)) [
      | inl q ↦ let f = rw (q, search_each) at e in cc
      | inr q ↦ elim (Bool-cases (go next seen).0) [
        | inl g ↦ let f = rw (q, g, search_each) at e in cc
        | inr g ↦
            let f = rw (q, g, search_each) at e in
            let step = h next seen (k next (IsUsed_head next names)) b g in
            let fewer = unmarked_mono all seen (go next seen).1 step.0.kept in
            let rest =
              search_each-Searched h names (go next seen).1 (λ x u. k x (ground (arith, u)))
                (omega (arith, fewer)) f in
            rw (q, g, search_each)
              (
                Searched-trans seen (go next seen).1 _ step.0 rest.0,
                λ x u. elim (Bool-cases (text_eq next x)) [
                  | inl s ↦
                      let same = (text_eq_iff next x).0 s in
                      subst
                        (λ y.
                          IsUsed (search_each start go names (go next seen).1).1 y × (y ≢ start))
                        same (rest.0.kept next step.1, λ w. cc)
                  | inr s ↦ rest.1 x (rw s at u)
                ],
              )
      ]
    ]

    search_step-Searched :
        IsExhaustive
        → ((x y : Text) → Leads defs x y → IsUsed all y)
        → (cur : Text) (first : Bool) (seen : List Text) → IsUsed all cur
        → unmarked all seen < suc n
        → (search_step defs start go cur first seen).0 ≡ false
        → Searched seen (search_step defs start go cur first seen).1
          × IsUsed (search_step defs start go cur first seen).1 cur
    unfolding search_step is_used
    search_step-Searched h covers cur first seen k b e =
        elim (Bool-cases (not first && text_eq cur start)) [
          | inl q ↦ let f = rw (q, search_step) at e in cc
          | inr q ↦ elim (Bool-cases (is_used seen cur)) [
            | inl u ↦ rw (q, u, search_step) (Searched-refl seen, u)
            | inr u ↦
                let f = rw (q, u, search_step) at e in
                let less = unmarked-less all seen cur u k in
                let found =
                  search_each-Searched h (follow_one defs cur []) (cur ∷ seen)
                    (λ x r. covers cur x (Leads-follow_one defs start cur x r))
                    (omega (arith, less)) f in
                rw (q, u, search_step)
                  (Searched-entered cur seen _ found.0
                    (λ y l. found.1 y ((follow_one_iff defs cur [] y).1 (inl l))))
          ]
        ]

  module _ (all : List Text) (covers : (x y : Text) → Leads defs x y → IsUsed all y) where
    def_reaches-Searched :
        (n : ℕ) (first : Bool) (cur : Text) (seen : List Text)
        → IsUsed all cur
        → unmarked all seen < n
        → (def_reaches defs start n cur first seen).0 ≡ false
        → Searched seen (def_reaches defs start n cur first seen).1
          × IsUsed (def_reaches defs start n cur first seen).1 cur
    unfolding def_reaches
    def_reaches-Searched zero first cur seen k b e = ground arith
    def_reaches-Searched (suc n) first cur seen k b e =
        search_step-Searched all n _ (def_reaches-Searched n false) covers cur first seen k b e

  no-Chain :
      (seen : List Text) → Searched [] seen → (x : Text) → IsUsed seen x → ¬ Chain defs x start
  unfolding is_used
  no-Chain seen p x u (one l) = elim (p.added x u) [ inl v ↦ cc | inr r ↦ (r start l).1 refl ]
  no-Chain seen p x u (more {k = k} l c) = elim (p.added x u) [
    | inl v ↦ cc
    | inr r ↦ no-Chain seen p k (r k l).0 c
  ]

  leads-met : (x y : Text) → Leads defs x y → IsUsed (start ∷ collect_members defs []) y
  unfolding is_used
  leads-met x y l =
      let u = (collect_members_iff defs [] y).1 (inl (ReferIn-find defs x y l)) in ground (arith, u)

  def_reaches_complete :
      (def_reaches defs start (enough_steps defs) start true []).0 ≡ false
      → ¬ Chain defs start start
  unfolding enough_steps is_used
  def_reaches_complete e =
      let all = start ∷ collect_members defs [] in
      let first = IsUsed_head start (collect_members defs []) in
      let found =
        def_reaches-Searched all leads-met (enough_steps defs) true start [] first
          (omega (arith, unmarked_bounded all [])) e in
      no-Chain _ found.0 start found.1

circular_among-Chain :
    (defs ms : Members) → circular_among defs ms ≡ true → (name : Text) × Chain defs name name
unfolding circular_among
circular_among-Chain defs no_members e = cc
circular_among-Chain defs (member_then name v ms) e =
    elim (Bool-cases (def_reaches defs name (enough_steps defs) name true []).0) [
      | inl r ↦ (name, def_reaches-Chain defs name (enough_steps defs) [] r)
      | inr r ↦ circular_among-Chain defs ms (rw r at e)
    ]

starts : (defs : Members) (n m : Text) → Chain defs n m → (v : Json) × (find n defs ≡ some v)
unfolding Leads
starts defs n m (one (v, e, r)) = (v, e)
starts defs n m (more (v, e, r) c) = (v, e)

circular_among-none :
    (defs ms : Members) (name : Text) (v : Json)
    → circular_among defs ms ≡ false
    → find name ms ≡ some v
    → ¬ Chain defs name name
unfolding circular_among find
circular_among-none defs no_members name v e f = cc
circular_among-none defs (member_then k w ms) name v e f =
    elim (Bool-cases (def_reaches defs k (enough_steps defs) k true []).0) [
      | inl r ↦ let no = rw r at e in cc
      | inr r ↦ elim (Bool-cases (text_eq k name)) [
        | inl s ↦
            subst (λ z. ¬ Chain defs z z) ((text_eq_iff k name).0 s) (def_reaches_complete defs k r)
        | inr s ↦ circular_among-none defs ms name v (rw r at e) (rw s at f)
      ]
    ]

-- hasCircularDefRef holds exactly if a chain of references leads from a definition to itself.
pub has_circular_def_ref_iff :
    (defs : Members) → (has_circular_def_ref defs ≡ true) ↔ ((name : Text) × Chain defs name name)
unfolding has_circular_def_ref
has_circular_def_ref_iff defs = (
  circular_among-Chain defs defs,
  λ (name, chain). elim (Bool-cases (circular_among defs defs)) [
    | inl e ↦ e
    | inr e ↦
        let (v, found) = starts defs name name chain in
        absurd (circular_among-none defs defs name v e found chain)
  ],
)

pub not_circular :
    (defs : Members) → has_circular_def_ref defs ≡ false → (a : Text) → ¬ Chain defs a a
not_circular defs h a c = let found = (has_circular_def_ref_iff defs).1 (a, c) in cc
