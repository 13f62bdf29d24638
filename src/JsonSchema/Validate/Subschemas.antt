-- ===== src/JsonSchema/Validate/Subschemas.antt =====
-- jsonschema/validate.go: when the checks pass that validate sub-schemas, over a validator of these.
use fastmcp.Prelude.{
  ℕ, suc, ◌+◌, Text, txt, true, List, [], ◌∷◌, ◌++◌, Option, none, some, All, ◌≡◌, ◌↔◌, inl, inr,
  refl, ap, arith, Bool-cases,
}
use fastmcp.Json.{
  Json, null, boolean, string, array, object, number, Items, no_items, item_then, Members,
  no_members, member_then,
}
use fastmcp.JsonSchema.{find, as_map, as_strings}
use fastmcp.JsonSchema.Validate.{
  all_of, passes, any_of, matched, on_subschema, on_value, check_properties, check_items, on_items,
  validate_object, validate_array,
}
use fastmcp.JsonSchema.Validate.Keywords.{
  SchemaLib, ValidationError, is_true, is_false, or_no_members, items_length, join_path, few_items,
  many_items, not_unique,
}
use fastmcp.JsonSchema.Validate.Checks.{undeclared, all_unique}
use fastmcp.JsonSchema.Validate.Satisfies.{
  Given, SomeHolds, OneHolds, PropertiesHold, ItemsHold, ObjectHolds, ArrayHolds,
}
use fastmcp.JsonSchema.Validate.Parts.{
  Passes-missing, Passes-undeclared, Passes-Within, all_unique_iff,
}
use fastmcp.JsonSchema.Validate.Passing.{
  Passes, Passes-or_then, Passes-both, Passes-require, Passes-when, true-or, true-when,
}

module _ (lib : SchemaLib) (rec : Members → Json → Text → Option ValidationError)
    (S : Members → Json → Type 0)
    (sound : (s : Members) (v : Json) (path : Text) → Passes (rec s v path) ↔ S s v) where
  pub Passes-all_of :
      (ss : List Members) (v : Json) (path : Text)
      → Passes (all_of lib rec ss v path) ↔ All (λ s. S s v) ss
  unfolding all_of
  Passes-all_of [] v path = (λ h. tt, λ h. refl)
  Passes-all_of (s ∷ ss) v path =
      Passes-both (rec s v path) (all_of lib rec ss v path) (sound s v path)
        (Passes-all_of ss v path)

  passes_iff :
      (s : Members) (v : Json) (path : Text) → (passes lib rec (rec s v path) ≡ true) ↔ S s v
  passes_iff s v path = read (rec s v path) (sound s v path)
    where
      read : (o : Option ValidationError) → Passes o ↔ S s v → (passes lib rec o ≡ true) ↔ S s v
      read none h = (λ e. h.0 refl, λ e. refl)
      read (some e) h = (λ x. cc x, λ x. cc (h.1 x))

  pub any_of_iff :
      (ss : List Members) (v : Json) (path : Text)
      → (any_of lib rec ss v path ≡ true) ↔ SomeHolds lib S ss v
  unfolding any_of
  any_of_iff [] v path = (λ h. cc h, λ h. absurd h)
  any_of_iff (s ∷ ss) v path =
      true-or (passes lib rec (rec s v path)) (any_of lib rec ss v path) (passes_iff s v path)
        (any_of_iff ss v path)

  matched_zero :
      (ss : List Members) (v : Json) (path : Text)
      → (matched lib rec ss v path ≡ 0) ↔ (¬ SomeHolds lib S ss v)
  unfolding matched
  matched_zero [] v path = (λ h x. x, λ h. refl)
  matched_zero (s ∷ ss) v path = elim (Bool-cases (passes lib rec (rec s v path))) [
    | inl e ↦ rw e (λ h. absurd (omega arith), λ h. absurd (h (inl ((passes_iff s v path).0 e))))
    | inr e ↦ rw e (
      λ h x. elim x [
        | inl y ↦ cc (e, (passes_iff s v path).1 y)
        | inr y ↦ (matched_zero ss v path).0 h y
      ],
      λ h. (matched_zero ss v path).1 (λ x. h (inr x)),
    )
  ]

  pub matched_one :
      (ss : List Members) (v : Json) (path : Text)
      → (matched lib rec ss v path ≡ 1) ↔ OneHolds lib S ss v
  unfolding matched
  matched_one [] v path = (λ h. absurd (omega arith), λ h. absurd h)
  matched_one (s ∷ ss) v path = elim (Bool-cases (passes lib rec (rec s v path))) [
    | inl e ↦ rw e (
      λ h. inl ((passes_iff s v path).0 e, (matched_zero ss v path).0 (omega arith)),
      λ h. elim h [
        | inl x ↦ ap suc ((matched_zero ss v path).1 x.1)
        | inr x ↦ absurd (x.0 ((passes_iff s v path).0 e))
      ],
    )
    | inr e ↦ rw e (
      λ h. inr (λ x. cc (e, (passes_iff s v path).1 x), (matched_one ss v path).0 h),
      λ h. elim h [
        | inl x ↦ cc (e, (passes_iff s v path).1 x.0)
        | inr x ↦ (matched_one ss v path).1 x.1
      ],
    )
  ]

  Passes-schema :
      (o : Option Members) (v : Json) (path : Text)
      → Passes (on_subschema lib rec o v path) ↔ Given o (λ s. S s v)
  Passes-schema none v path = (λ h. tt, λ h. refl)
  Passes-schema (some s) v path = sound s v path

  Passes-value :
      (sub : Json) (o : Option Json) (path : Text)
      → Passes (on_value lib rec sub o path) ↔ Given o (λ v. Given (as_map (some sub)) (λ s. S s v))
  Passes-value sub none path = (λ h. tt, λ h. refl)
  Passes-value sub (some v) path = Passes-schema (as_map (some sub)) v path

  Passes-properties :
      (props obj : Members) (path : Text)
      → Passes (check_properties lib rec props obj path) ↔ PropertiesHold lib S props obj
  unfolding check_properties
  Passes-properties no_members obj path = (λ h. tt, λ h. refl)
  Passes-properties (member_then key sub props) obj path =
      Passes-both (on_value lib rec sub (find key obj) (join_path path key))
        (check_properties lib rec props obj path)
        (Passes-value sub (find key obj) (join_path path key)) (Passes-properties props obj path)

  Passes-items :
      (s : Members) (vs : Items) (i : ℕ) (path : Text)
      → Passes (check_items lib rec s vs i path) ↔ ItemsHold lib S s vs
  unfolding check_items
  Passes-items s no_items i path = (λ h. tt, λ h. refl)
  Passes-items s (item_then v vs) i path =
      Passes-both _ (check_items lib rec s vs (i + 1) path)
        (sound s v (path ++ (txt "/" ++ lib.decimal i))) (Passes-items s vs (i + 1) path)

  Passes-on_items :
      (o : Option Members) (vs : Items) (path : Text)
      → Passes (on_items lib rec o vs path) ↔ Given o (λ s. ItemsHold lib S s vs)
  Passes-on_items none vs path = (λ h. tt, λ h. refl)
  Passes-on_items (some s) vs path = Passes-items s vs 0 path

  pub Passes-object :
      (schema : Members) (v : Json) (path : Text)
      → Passes (validate_object lib rec schema v path) ↔ ObjectHolds lib S schema v
  unfolding validate_object
  Passes-object schema (object obj) path =
      let props = or_no_members (as_map (find (txt "properties") schema)) in
      let have = Passes-missing lib (as_strings (find (txt "required") schema)) obj path in
      let declared =
        Passes-when (is_false (find (txt "additionalProperties") schema))
          (undeclared lib obj props path) (Passes-undeclared lib obj props path) in
      (
        λ h.
            let h1 = (Passes-or_then _ _).0 h in
            let h2 = (Passes-or_then _ _).0 h1.1 in
            (have.0 h1.0, (Passes-properties props obj path).0 h2.0, declared.0 h2.1),
        λ h.
            let h2 =
              (Passes-or_then _ _).1 ((Passes-properties props obj path).1 h.1, declared.1 h.2) in
            (Passes-or_then _ _).1 (have.1 h.0, h2),
      )
  Passes-object schema null path = (λ h. tt, λ h. refl)
  Passes-object schema (boolean b) path = (λ h. tt, λ h. refl)
  Passes-object schema (number f) path = (λ h. tt, λ h. refl)
  Passes-object schema (string s) path = (λ h. tt, λ h. refl)
  Passes-object schema (array vs) path = (λ h. tt, λ h. refl)

  pub Passes-array :
      (schema : Members) (v : Json) (path : Text)
      → Passes (validate_array lib rec schema v path) ↔ ArrayHolds lib S schema v
  unfolding validate_array
  Passes-array schema (array vs) path =
      let sized =
        Passes-Within lib schema (txt "minItems") (txt "maxItems") (items_length vs) path
          (few_items (items_length vs)) (many_items (items_length vs)) in
      let unique = Passes-require _ path not_unique (
        true-when (is_true (find (txt "uniqueItems") schema)) (all_unique lib vs)
          (all_unique_iff lib vs)) in
      let each = Passes-on_items (as_map (find (txt "items") schema)) vs path in
      (
        λ h.
            let h1 = (Passes-or_then _ _).0 h in
            let h2 = (Passes-or_then _ _).0 h1.1 in
            let h3 = (Passes-or_then _ _).0 h2.1 in
            (sized.0 (h1.0, h2.0), unique.0 h3.0, each.0 h3.1),
        λ h.
            let both = sized.1 h.0 in
            let h3 = (Passes-or_then _ _).1 (unique.1 h.1, each.1 h.2) in
            let h2 = (Passes-or_then _ _).1 (both.1, h3) in (Passes-or_then _ _).1 (both.0, h2),
      )
  Passes-array schema null path = (λ h. tt, λ h. refl)
  Passes-array schema (boolean b) path = (λ h. tt, λ h. refl)
  Passes-array schema (number f) path = (λ h. tt, λ h. refl)
  Passes-array schema (string s) path = (λ h. tt, λ h. refl)
  Passes-array schema (object ms) path = (λ h. tt, λ h. refl)
