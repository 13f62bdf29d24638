-- ===== src/JsonSchema/Unused/Rounds.antt =====
-- jsonschema/transform.go: the rounds of pruneUnusedDefs end, and with a set that no round adds to.
use fastmcp.Prelude.{
  ℕ, zero, suc, ◌<◌, Text, length, false, ◌==◌, List, [], ◌∷◌, Option, none, some, ◌≡◌, ◌⊎◌, inl,
  inr, refl, subst, sym, ap, arith, Bool-cases, Option-cases, ==_iff,
}
use fastmcp.Json.{
  Json, null, boolean, number, string, array, object, Items, no_items, item_then, Members,
  no_members, member_then,
}
use fastmcp.JsonSchema.{find}
use fastmcp.JsonSchema.Unused.{
  is_used, own_name, use_own, collect_def_refs, collect_members, collect_items, follow_one, follow,
  follow_round, rounds,
}
use fastmcp.JsonSchema.Unused.Refers.{Refers, ReferIn, ReferAmong, IsUsed, Leads}
use fastmcp.JsonSchema.Unused.Marks.{unmarked, unmarked_bounded, unmarked-less}

-- the set is as it was, or has more names, and fewer are unmarked
IsProgress : List Text → List Text → List Text → Type 0
IsProgress all used next =
    (next ≡ used) ⊎ ((length used < length next) × (unmarked all next < unmarked all used))

unchanged : (all used : List Text) → IsProgress all used used
unfolding IsProgress
unchanged all used = inl refl

IsProgress-trans :
    (all a b c : List Text) → IsProgress all a b → IsProgress all b c → IsProgress all a c
unfolding IsProgress
IsProgress-trans all a b c (inl e) q = subst (λ x. IsProgress all x c) e q
IsProgress-trans all a b c (inr p) (inl e) = subst (λ x. IsProgress all a x) (sym e) (inr p)
IsProgress-trans all a b c (inr (l, m)) (inr (k, n)) = inr (ground arith, ground arith)

use_own-IsProgress :
    (all : List Text) (o : Option Text) (used : List Text)
    → ((m : Text) → o ≡ some m → IsUsed all m)
    → IsProgress all used (use_own o used)
unfolding use_own IsProgress
use_own-IsProgress all none used h = inl refl
use_own-IsProgress all (some n) used h = elim (Bool-cases (is_used used n)) [
  | inl e ↦ rw e (inl refl)
  | inr e ↦ rw e (inr (ground arith, unmarked-less all used n e (h n refl)))
]

mutual
  unfolding collect_def_refs Refers

  collect_def_refs-IsProgress :
      (all : List Text) (v : Json) (used : List Text)
      → ((m : Text) → Refers m v → IsUsed all m)
      → IsProgress all used (collect_def_refs v used)
  collect_def_refs-IsProgress all (object ms) used h =
      IsProgress-trans all _ _ _ (use_own-IsProgress all (own_name ms) used (λ m e. h m (inl e)))
        (collect_members-IsProgress all ms _ (λ m r. h m (inr r)))
  collect_def_refs-IsProgress all (array vs) used h = collect_items-IsProgress all vs used h
  collect_def_refs-IsProgress all null used h = unchanged all used
  collect_def_refs-IsProgress all (boolean b) used h = unchanged all used
  collect_def_refs-IsProgress all (number n) used h = unchanged all used
  collect_def_refs-IsProgress all (string s) used h = unchanged all used

  collect_members-IsProgress :
      (all : List Text) (ms : Members) (used : List Text)
      → ((m : Text) → ReferIn m ms → IsUsed all m)
      → IsProgress all used (collect_members ms used)
  collect_members-IsProgress all no_members used h = unchanged all used
  collect_members-IsProgress all (member_then k v ms) used h =
      IsProgress-trans all _ _ _ (collect_def_refs-IsProgress all v used (λ m r. h m (inl r)))
        (collect_members-IsProgress all ms _ (λ m r. h m (inr r)))

  collect_items-IsProgress :
      (all : List Text) (vs : Items) (used : List Text)
      → ((m : Text) → ReferAmong m vs → IsUsed all m)
      → IsProgress all used (collect_items vs used)
  collect_items-IsProgress all no_items used h = unchanged all used
  collect_items-IsProgress all (item_then v vs) used h =
      IsProgress-trans all _ _ _ (collect_def_refs-IsProgress all v used (λ m r. h m (inl r)))
        (collect_items-IsProgress all vs _ (λ m r. h m (inr r)))

module _ (defs : Members) (all : List Text)
    (covers : (n m : Text) → Leads defs n m → IsUsed all m) where
  follow_one-IsProgress :
      (n : Text) (used : List Text) → IsProgress all used (follow_one defs n used)
  unfolding follow_one Leads
  follow_one-IsProgress n used = elim (Option-cases (find n defs)) [
    | inl e ↦ rw (e, follow_one) (unchanged all used)
    | inr (v, e) ↦
        rw (e, follow_one) (collect_def_refs-IsProgress all v used (λ m r. covers n m (v, e, r)))
  ]

  follow-IsProgress : (names used : List Text) → IsProgress all used (follow defs names used)
  unfolding follow
  follow-IsProgress [] used = unchanged all used
  follow-IsProgress (n ∷ names) used =
      IsProgress-trans all _ _ _ (follow_one-IsProgress n used) (follow-IsProgress names _)

  settled_after :
      (n : ℕ) (used : List Text)
      → unmarked all used < n
      → follow_round defs (rounds n defs used) ≡ rounds n defs used
  unfolding rounds IsProgress
  settled_after zero used h = ground arith
  settled_after (suc n) used h = elim (follow-IsProgress used used) [
    | inl e ↦ let same = (==_iff _ _).1 (ap length e) in rw same (ap (follow_round defs) e)
    | inr (more, less) ↦
        let other : (length (follow_round defs used) == length used) ≡ false = ground arith in
        rw other (settled_after n (follow_round defs used) (ground arith))
  ]

  -- more rounds than names end with a set to which a round adds nothing
  pub rounds-settled :
      (n : ℕ) (used : List Text)
      → length all < n
      → follow_round defs (rounds n defs used) ≡ rounds n defs used
  rounds-settled n used h = settled_after n used (omega (arith, unmarked_bounded all used))
