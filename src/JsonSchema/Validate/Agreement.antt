-- ===== src/JsonSchema/Validate/Agreement.antt =====
-- jsonschema/validate.go: two validators of sub-schemas that agree below a depth give the same checks.
use fastmcp.Prelude.{
  ℕ, ◌+◌, ◌≤◌, Text, txt, text_eq, List, [], ◌∷◌, ◌++◌, Option, none, some, All, ◌≡◌, refl, ap,
  arith, Bool-cases, inl, inr,
}
use fastmcp.Json.{
  Json, null, boolean, string, array, object, number, Items, no_items, item_then, Members,
  no_members, member_then,
}
use fastmcp.JsonSchema.{find, as_map}
use fastmcp.JsonSchema.Validate.{
  all_of, any_of, matched, on_value, check_properties, check_items, on_items,
}
use fastmcp.JsonSchema.Validate.Keywords.{
  SchemaLib, ValidationError, ◌or_then◌, on_key, as_schema_list, maps_of, or_no_members, join_path,
  depth, depth_members, depth_items,
}

abbrev pub IsBelow : ℕ → Members → Type 0
IsBelow d s = depth (object s) ≤ d

pub depth-find :
    (k : Text) (ms : Members) (v : Json) (d : ℕ)
    → depth_members ms ≤ d
    → find k ms ≡ some v
    → depth v ≤ d
unfolding find depth
depth-find k no_members v d b h = cc h
depth-find k (member_then j w ms) v d b h = elim (Bool-cases (text_eq j k)) [
  | inl e ↦
      let same : some w ≡ some v = rw e at h in
      let w_is_v : w ≡ v = cc same in rw (← w_is_v) (omega arith)
  | inr e ↦ depth-find k ms v d (omega arith) (rw e at h)
]

pub maps_of-IsBelow : (vs : Items) (d : ℕ) → depth_items vs ≤ d → All (IsBelow d) (maps_of vs)
unfolding maps_of depth
maps_of-IsBelow no_items d h = tt
maps_of-IsBelow (item_then (object ms) vs) d h = (omega arith, maps_of-IsBelow vs d (omega arith))
maps_of-IsBelow (item_then null vs) d h = maps_of-IsBelow vs d (omega arith)
maps_of-IsBelow (item_then (boolean b) vs) d h = maps_of-IsBelow vs d (omega arith)
maps_of-IsBelow (item_then (number f) vs) d h = maps_of-IsBelow vs d (omega arith)
maps_of-IsBelow (item_then (string s) vs) d h = maps_of-IsBelow vs d (omega arith)
maps_of-IsBelow (item_then (array ws) vs) d h = maps_of-IsBelow vs d (omega arith)

pub as_schema_list-IsBelow :
    (raw : Json) (d : ℕ) → depth raw ≤ d → All (IsBelow d) (as_schema_list raw)
unfolding depth
as_schema_list-IsBelow (array vs) d h = maps_of-IsBelow vs d (omega arith)
as_schema_list-IsBelow null d h = tt
as_schema_list-IsBelow (boolean b) d h = tt
as_schema_list-IsBelow (number f) d h = tt
as_schema_list-IsBelow (string s) d h = tt
as_schema_list-IsBelow (object ms) d h = tt

pub on_key_same {ℓ} :
    {A : Type ℓ} (o : Option A) (f g : A → Option ValidationError)
    → ((a : A) → o ≡ some a → f a ≡ g a)
    → on_key o f ≡ on_key o g
on_key_same none f g h = refl
on_key_same (some a) f g h = h a refl

-- two validators that agree on the schemas below a depth
module _ (lib : SchemaLib) (rec other : Members → Json → Text → Option ValidationError) (d : ℕ)
    (agree : (s : Members) (v : Json) (path : Text)
      → IsBelow d s
      → rec s v path ≡ other s v path) where
  pub all_of_same :
      (ss : List Members) (v : Json) (path : Text)
      → All (IsBelow d) ss
      → all_of lib rec ss v path ≡ all_of lib other ss v path
  unfolding all_of
  all_of_same [] v path h = refl
  all_of_same (s ∷ ss) v path h =
      rw (agree s v path h.0) (ap (λ o. other s v path or_then o) (all_of_same ss v path h.1))

  pub any_of_same :
      (ss : List Members) (v : Json) (path : Text)
      → All (IsBelow d) ss
      → any_of lib rec ss v path ≡ any_of lib other ss v path
  unfolding any_of
  any_of_same [] v path h = refl
  any_of_same (s ∷ ss) v path h = rw (agree s v path h.0, any_of_same ss v path h.1) refl

  pub matched_same :
      (ss : List Members) (v : Json) (path : Text)
      → All (IsBelow d) ss
      → matched lib rec ss v path ≡ matched lib other ss v path
  unfolding matched
  matched_same [] v path h = refl
  matched_same (s ∷ ss) v path h = rw (agree s v path h.0, matched_same ss v path h.1) refl

  pub value_same :
      (sub : Json) (o : Option Json) (path : Text)
      → depth sub ≤ d
      → on_value lib rec sub o path ≡ on_value lib other sub o path
  value_same sub none path h = refl
  value_same (object s) (some v) path h = agree s v path h
  value_same null (some v) path h = refl
  value_same (boolean b) (some v) path h = refl
  value_same (number f) (some v) path h = refl
  value_same (string s) (some v) path h = refl
  value_same (array vs) (some v) path h = refl

  pub properties_same :
      (props obj : Members) (path : Text)
      → depth_members props ≤ d
      → check_properties lib rec props obj path ≡ check_properties lib other props obj path
  unfolding check_properties depth
  properties_same no_members obj path h = refl
  properties_same (member_then key sub props) obj path h =
      rw
        (
          value_same sub (find key obj) (join_path path key) (omega arith),
          properties_same props obj path (omega arith),
        )
        refl

  pub items_same :
      (s : Members) (vs : Items) (i : ℕ) (path : Text)
      → IsBelow d s
      → check_items lib rec s vs i path ≡ check_items lib other s vs i path
  unfolding check_items
  items_same s no_items i path h = refl
  items_same s (item_then v vs) i path h =
      rw (agree s v (path ++ (txt "/" ++ lib.decimal i)) h, items_same s vs (i + 1) path h) refl

  pub on_items_same :
      (o : Option Json) (vs : Items) (path : Text)
      → ((v : Json) → o ≡ some v → depth v ≤ d)
      → on_items lib rec (as_map o) vs path ≡ on_items lib other (as_map o) vs path
  on_items_same none vs path h = refl
  on_items_same (some (object s)) vs path h = items_same s vs 0 path (h (object s) refl)
  on_items_same (some null) vs path h = refl
  on_items_same (some (boolean b)) vs path h = refl
  on_items_same (some (number f)) vs path h = refl
  on_items_same (some (string s)) vs path h = refl
  on_items_same (some (array ws)) vs path h = refl

pub properties_depth :
    (o : Option Json) (d : ℕ)
    → ((v : Json) → o ≡ some v → depth v ≤ d)
    → depth_members (or_no_members (as_map o)) ≤ d
unfolding depth
properties_depth none d h = omega arith
properties_depth (some (object ms)) d h = omega (arith, h (object ms) refl)
properties_depth (some null) d h = omega arith
properties_depth (some (boolean b)) d h = omega arith
properties_depth (some (number f)) d h = omega arith
properties_depth (some (string s)) d h = omega arith
properties_depth (some (array ws)) d h = omega arith
