-- ===== src/JsonSchema/Unused/Marks.antt =====
-- jsonschema: how far a set of names is from having all of them.
use fastmcp.Prelude.{
  ℕ, suc, ◌≤◌, ◌<◌, Text, text_eq, text_eq_iff, length, false, List, [], ◌∷◌, ◌≡◌, inl, inr, refl,
  arith, Bool-cases, if◌then◌else◌,
}
use fastmcp.JsonSchema.Unused.{is_used}
use fastmcp.JsonSchema.Unused.Refers.{IsUsed}

-- how many of the names are not in the set
unfoldable pub unmarked : List Text → List Text → ℕ
unmarked [] used = 0
unmarked (n ∷ all) used = let rest = unmarked all used in if is_used used n then rest else suc rest

pub unmarked_bounded : (all used : List Text) → unmarked all used ≤ length all
unfolding unmarked
unmarked_bounded [] used = ground arith
unmarked_bounded (n ∷ all) used = ground (arith, unmarked_bounded all used)

unmarked-more : (all used : List Text) (n : Text) → unmarked all (n ∷ used) ≤ unmarked all used
unfolding unmarked is_used
unmarked-more [] used n = ground arith
unmarked-more (x ∷ all) used n = ground (arith, unmarked-more all used n)

pub unmarked-less :
    (all used : List Text) (n : Text)
    → is_used used n ≡ false
    → IsUsed all n
    → unmarked all (n ∷ used) < unmarked all used
unfolding unmarked is_used
unmarked-less [] used n h u = ground arith
unmarked-less (x ∷ all) used n h u = elim (Bool-cases (text_eq x n)) [
  | inl e ↦
      let same = (text_eq_iff x n).0 e in
      rw (same, h, (text_eq_iff n n).1 refl) (ground (arith, unmarked-more all used n))
  | inr e ↦ ground (arith, unmarked-more all used n, unmarked-less all used n h)
]

pub unmarked_mono :
    (all a b : List Text) → ((x : Text) → IsUsed a x → IsUsed b x) → unmarked all b ≤ unmarked all a
unfolding unmarked
unmarked_mono [] a b h = ground arith
unmarked_mono (x ∷ all) a b h = ground (arith, h x, unmarked_mono all a b h)
