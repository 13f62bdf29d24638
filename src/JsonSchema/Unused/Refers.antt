-- ===== src/JsonSchema/Unused/Refers.antt =====
-- jsonschema/transform.go: the names that collectDefRefs and a round add to a set.
use fastmcp.Prelude.{
  Text, txt, text_eq, text_eq_iff, true, false, List, [], ◌∷◌, Option, none, some, ◌≡◌, ◌↔◌, ◌⊎◌,
  inl, inr, refl, arith, Bool-cases, Option-cases, if◌then◌else◌,
}
use fastmcp.Json.{
  Json, null, boolean, number, string, array, object, Items, no_items, item_then, Members,
  no_members, member_then,
}
use fastmcp.JsonSchema.{find}
use fastmcp.JsonSchema.Unused.{
  is_used, use_name, own_name, use_own, collect_def_refs, collect_members, collect_items, seed,
  follow_one, follow,
}

unfoldable mutual
  -- an object in the value, at any depth, refers to the definition with the name
  pub Refers : Text → Json → Type 0
  Refers m (object ms) = (own_name ms ≡ some m) ⊎ ReferIn m ms
  Refers m (array vs) = ReferAmong m vs
  Refers m null = ⊥
  Refers m (boolean b) = ⊥
  Refers m (number n) = ⊥
  Refers m (string s) = ⊥

  pub ReferIn : Text → Members → Type 0
  ReferIn m no_members = ⊥
  ReferIn m (member_then k v ms) = Refers m v ⊎ ReferIn m ms

  pub ReferAmong : Text → Items → Type 0
  ReferAmong m no_items = ⊥
  ReferAmong m (item_then v vs) = Refers m v ⊎ ReferAmong m vs

-- a value of the document, but that of `$defs`, refers to it
unfoldable pub Seeds : Text → Members → Type 0
Seeds m no_members = ⊥
Seeds m (member_then k v ms) = ((text_eq k (txt "$defs") ≡ false) × Refers m v) ⊎ Seeds m ms

abbrev pub IsUsed : List Text → Text → Type 0
IsUsed used m = is_used used m ≡ true

pub IsUsed_head : (n : Text) (used : List Text) → IsUsed (n ∷ used) n
unfolding is_used
IsUsed_head n used = rw ((text_eq_iff n n).1 refl) refl

joined : {A B C D E : Type 0} → A ↔ (B ⊎ C) → C ↔ (D ⊎ E) → A ↔ ((D ⊎ B) ⊎ E)
joined f g = (
  λ a. elim (f.0 a) [
    | inl b ↦ inl (inr b)
    | inr c ↦ elim (g.0 c) [ inl d ↦ inl (inl d) | inr e ↦ inr e ]
  ],
  λ s. elim s [
    | inl t ↦ elim t [ inl d ↦ f.1 (inr (g.1 (inl d))) | inr b ↦ f.1 (inl b) ]
    | inr e ↦ f.1 (inr (g.1 (inr e)))
  ],
)

nothing : {A : Type 0} → A ↔ (⊥ ⊎ A)
nothing = (inr, λ s. elim s [ inl b ↦ elim b [ ] | inr a ↦ a ])

pub use_name_iff :
    (n : Text) (used : List Text) (m : Text)
    → IsUsed (use_name n used) m ↔ ((n ≡ m) ⊎ IsUsed used m)
unfolding is_used
use_name_iff n used m = elim (Bool-cases (is_used used n)) [
  | inl e ↦ rw e (inr, λ s. elim s [ inl d ↦ rw (← d) e | inr u ↦ u ])
  | inr e ↦ rw e (grind (arith, text_eq_iff n m))
]

use_own_iff :
    (o : Option Text) (used : List Text) (m : Text)
    → IsUsed (use_own o used) m ↔ ((o ≡ some m) ⊎ IsUsed used m)
unfolding use_own
use_own_iff none used m = ground arith
use_own_iff (some n) used m = grind (arith, use_name_iff n used m)

mutual
  unfolding collect_def_refs Refers

  pub collect_def_refs_iff :
      (v : Json) (used : List Text) (m : Text)
      → IsUsed (collect_def_refs v used) m ↔ (Refers m v ⊎ IsUsed used m)
  collect_def_refs_iff (object ms) used m =
      joined (collect_members_iff ms (use_own (own_name ms) used) m)
        (use_own_iff (own_name ms) used m)
  collect_def_refs_iff (array vs) used m = collect_items_iff vs used m
  collect_def_refs_iff null used m = nothing
  collect_def_refs_iff (boolean b) used m = nothing
  collect_def_refs_iff (number n) used m = nothing
  collect_def_refs_iff (string s) used m = nothing

  pub collect_members_iff :
      (ms : Members) (used : List Text) (m : Text)
      → IsUsed (collect_members ms used) m ↔ (ReferIn m ms ⊎ IsUsed used m)
  collect_members_iff no_members used m = nothing
  collect_members_iff (member_then k v ms) used m =
      joined (collect_members_iff ms (collect_def_refs v used) m) (collect_def_refs_iff v used m)

  collect_items_iff :
      (vs : Items) (used : List Text) (m : Text)
      → IsUsed (collect_items vs used) m ↔ (ReferAmong m vs ⊎ IsUsed used m)
  collect_items_iff no_items used m = nothing
  collect_items_iff (item_then v vs) used m =
      joined (collect_items_iff vs (collect_def_refs v used) m) (collect_def_refs_iff v used m)

seed_one_iff :
    (k : Text) (v : Json) (used : List Text) (m : Text)
    → IsUsed (if text_eq k (txt "$defs") then used else collect_def_refs v used) m
      ↔ (((text_eq k (txt "$defs") ≡ false) × Refers m v) ⊎ IsUsed used m)
seed_one_iff k v used m = elim (Bool-cases (text_eq k (txt "$defs"))) [
  | inl e ↦ rw e (ground arith)
  | inr e ↦ rw e (grind (arith, collect_def_refs_iff v used m))
]

pub seed_iff :
    (node : Members) (used : List Text) (m : Text)
    → IsUsed (seed node used) m ↔ (Seeds m node ⊎ IsUsed used m)
unfolding seed Seeds
seed_iff no_members used m = nothing
seed_iff (member_then k v ms) used m = joined (seed_iff ms _ m) (seed_one_iff k v used m)

-- the definition with the first name refers to the second
unfoldable pub Leads : Members → Text → Text → Type 0
Leads defs n m = (v : Json) × (find n defs ≡ some v) × Refers m v

pub follow_one_iff :
    (defs : Members) (n : Text) (used : List Text) (m : Text)
    → IsUsed (follow_one defs n used) m ↔ (Leads defs n m ⊎ IsUsed used m)
unfolding follow_one Leads
follow_one_iff defs n used m = elim (Option-cases (find n defs)) [
  | inl e ↦ rw (e, follow_one) (inr, λ s. elim s [ inl (v, q, r) ↦ cc | inr u ↦ u ])
  | inr (v, e) ↦
      rw (e, follow_one)
        (
          λ u. elim ((collect_def_refs_iff v used m).0 u) [
            | inl r ↦ inl (v, refl, r)
            | inr h ↦ inr h
          ],
          λ s. elim s [
            | inl (w, q, r) ↦
                (collect_def_refs_iff v used m).1 (inl (let same : v ≡ w = cc in rw same r))
            | inr h ↦ (collect_def_refs_iff v used m).1 (inr h)
          ],
        )
]

-- one of the names leads to it
unfoldable pub LeadFrom : Members → List Text → Text → Type 0
LeadFrom defs [] m = ⊥
LeadFrom defs (n ∷ names) m = Leads defs n m ⊎ LeadFrom defs names m

pub follow_iff :
    (defs : Members) (names used : List Text) (m : Text)
    → IsUsed (follow defs names used) m ↔ (LeadFrom defs names m ⊎ IsUsed used m)
unfolding follow LeadFrom
follow_iff defs [] used m = nothing
follow_iff defs (n ∷ names) used m =
    joined (follow_iff defs names (follow_one defs n used) m) (follow_one_iff defs n used m)

pub ReferIn-find : (defs : Members) (n m : Text) → Leads defs n m → ReferIn m defs
unfolding find Leads Refers
ReferIn-find no_members n m (v, e, r) = cc
ReferIn-find (member_then k w defs) n m (v, e, r) = elim (Bool-cases (text_eq k n)) [
  | inl q ↦ inl (let found : w ≡ v = let h = rw q at e in cc in rw found r)
  | inr q ↦ inr (let h = rw q at e in ReferIn-find defs n m (v, h, r))
]

pub LeadFrom-used :
    (defs : Members) (n m : Text) (names : List Text)
    → IsUsed names n
    → Leads defs n m
    → LeadFrom defs names m
unfolding is_used LeadFrom
LeadFrom-used defs n m [] u l = cc
LeadFrom-used defs n m (x ∷ names) u l = elim (Bool-cases (text_eq x n)) [
  | inl q ↦ inl (rw ((text_eq_iff x n).0 q) l)
  | inr q ↦ inr (let h = rw q at u in LeadFrom-used defs n m names h l)
]
