-- ===== src/JsonSchema/Validate/Parts.antt =====
-- jsonschema/validate.go: when each of the checks that no sub-schema takes part in passes.
use fastmcp.Prelude.{
  ℕ, Text, txt, Bool, true, false, not, List, [], ◌∷◌, Option, none, some, Result, done, failed,
  All, ◌≡◌, ◌≢◌, ◌↔◌, ◌⊎◌, inl, inr, refl, Bool-cases, is_some,
}
use fastmcp.Prelude.Int.{ℤ, pos}
use fastmcp.Json.{
  Json, null, boolean, string, array, object, number, Items, no_items, item_then, Members,
  no_members, member_then,
}
use fastmcp.JsonSchema.{find, as_text}
use fastmcp.JsonSchema.Validate.Keywords.{
  SchemaLib, Violation, require, on_key, short_string, long_string, missing_property,
  additional_property, join_path, no_match, as_float, int_below,
}
use fastmcp.JsonSchema.Validate.Checks.{
  json_equal, has_equal, matches_type, some_type, validate_type_any, missing, undeclared, repeats,
  all_unique, match_pattern, on_pattern, validate_string, number_key, validate_number,
}
use fastmcp.JsonSchema.Validate.Satisfies.{
  Given, HasEqual, SomeType, IsTyped, Differs, AllDiffer, Within, IsMatched, StringHolds,
  NumberHolds, AllDeclared,
}
use fastmcp.JsonSchema.Validate.Passing.{
  Passes, Passes-both, Passes-on_key, Passes-or_then, Passes-require, is_some_iff, itself,
  never-true, true-and_not, true-not, true-or,
}

module _ (lib : SchemaLib) where
  pub has_equal_iff : (vs : Items) (v : Json) → (has_equal lib vs v ≡ true) ↔ HasEqual lib v vs
  unfolding has_equal
  has_equal_iff no_items v = never-true
  has_equal_iff (item_then a vs) v =
      true-or (json_equal lib a v) (has_equal lib vs v) itself (has_equal_iff vs v)

  some_type_iff : (ts : Items) (v : Json) → (some_type lib ts v ≡ true) ↔ SomeType lib ts v
  unfolding some_type
  some_type_iff no_items v = never-true
  some_type_iff (item_then (string t) ts) v =
      true-or (matches_type lib t v) (some_type lib ts v) itself (some_type_iff ts v)
  some_type_iff (item_then null ts) v = some_type_iff ts v
  some_type_iff (item_then (boolean b) ts) v = some_type_iff ts v
  some_type_iff (item_then (number f) ts) v = some_type_iff ts v
  some_type_iff (item_then (array vs) ts) v = some_type_iff ts v
  some_type_iff (item_then (object ms) ts) v = some_type_iff ts v

  pub Passes-type :
      (raw v : Json) (path : Text) → Passes (validate_type_any lib raw v path) ↔ IsTyped lib raw v
  Passes-type (string t) v path = Passes-require (matches_type lib t v) path _ itself
  Passes-type (array ts) v path = Passes-require (some_type lib ts v) path _ (some_type_iff ts v)
  Passes-type null v path = (λ h. tt, λ h. refl)
  Passes-type (boolean b) v path = (λ h. tt, λ h. refl)
  Passes-type (number f) v path = (λ h. tt, λ h. refl)
  Passes-type (object ms) v path = (λ h. tt, λ h. refl)

  pub Passes-missing :
      (ns : List Text) (obj : Members) (path : Text)
      → Passes (missing lib ns obj path) ↔ All (λ n. find n obj ≢ none) ns
  unfolding missing
  Passes-missing [] obj path = (λ h. tt, λ h. refl)
  Passes-missing (n ∷ ns) obj path =
      Passes-both _ (missing lib ns obj path)
        (Passes-require (is_some (find n obj)) path (missing_property n) (is_some_iff (find n obj)))
        (Passes-missing ns obj path)

  pub Passes-undeclared :
      (obj props : Members) (path : Text)
      → Passes (undeclared lib obj props path) ↔ AllDeclared obj props
  unfolding undeclared
  Passes-undeclared no_members props path = (λ h. tt, λ h. refl)
  Passes-undeclared (member_then key v obj) props path =
      Passes-both _ (undeclared lib obj props path)
        (Passes-require (is_some (find key props)) (join_path path key) additional_property
          (is_some_iff (find key props)))
        (Passes-undeclared obj props path)

  repeats_iff : (v : Json) (vs : Items) → (repeats lib v vs ≡ false) ↔ Differs lib v vs
  unfolding repeats
  repeats_iff v no_items = (λ h. tt, λ h. refl)
  repeats_iff v (item_then w vs) = elim (Bool-cases (json_equal lib v w)) [
    | inl e ↦ rw e (λ h. cc h, λ h. cc (h.0))
    | inr e ↦ rw e (λ h. (refl, (repeats_iff v vs).0 h), λ h. (repeats_iff v vs).1 h.1)
  ]

  pub all_unique_iff : (vs : Items) → (all_unique lib vs ≡ true) ↔ AllDiffer lib vs
  unfolding all_unique
  all_unique_iff no_items = (λ h. tt, λ h. refl)
  all_unique_iff (item_then v vs) = elim (Bool-cases (repeats lib v vs)) [
    | inl e ↦ rw e (λ h. cc h, λ h. cc (e, (repeats_iff v vs).1 h.0))
    | inr e ↦
        rw e
          (λ h. ((repeats_iff v vs).0 e, (all_unique_iff vs).0 h), λ h. (all_unique_iff vs).1 h.1)
  ]

  Passes-pattern :
      (o : Option Text) (s path : Text)
      → Passes (on_pattern lib o s path) ↔ Given o (λ p. (p ≡ []) ⊎ IsMatched lib s (lib.compile p))
  Passes-pattern none s path = (λ h. tt, λ h. refl)
  Passes-pattern (some []) s path = (λ h. inl refl, λ h. refl)
  Passes-pattern (some (c ∷ p)) s path = compiled (lib.compile (c ∷ p))
    where
      compiled :
          (r : Result (Text → Bool))
          → Passes (match_pattern lib s path (c ∷ p) r) ↔ (((c ∷ p) ≡ []) ⊎ IsMatched lib s r)
      compiled (failed m) = (λ h. cc h, λ h. elim h [ inl e ↦ cc e | inr e ↦ absurd e ])
      compiled (done re) =
          Passes-require (re s) path (no_match (c ∷ p))
            (λ h. inr h, λ h. elim h [ inl e ↦ cc e | inr e ↦ e ])

  pub Passes-Within :
      (schema : Members) (least most : Text) (n : ℕ) (path : Text) (few many : ℤ → Violation)
      → (Passes (
            on_key
              (as_float (find least schema))
              (λ f. require (not (int_below (pos n) (lib.to_int f))) path (few (lib.to_int f))))
          × Passes (
              on_key
                (as_float (find most schema))
                (λ f. require (not (int_below (lib.to_int f) (pos n))) path (many (lib.to_int f)))))
        ↔ Within lib schema least n most
  Passes-Within schema least most n path few many =
      let low = Passes-on_key (as_float (find least schema)) (λ f.
        Passes-require (not (int_below (pos n) (lib.to_int f))) path (few (lib.to_int f))
          (true-not _)) in
      let high = Passes-on_key (as_float (find most schema)) (λ f.
        Passes-require (not (int_below (lib.to_int f) (pos n))) path (many (lib.to_int f))
          (true-not _)) in
      (λ h. (low.0 h.0, high.0 h.1), λ h. (low.1 h.0, high.1 h.1))

  pub Passes-string :
      (schema : Members) (v : Json) (path : Text)
      → Passes (validate_string lib schema v path) ↔ StringHolds lib schema v
  unfolding validate_string
  Passes-string schema (string s) path =
      let sized =
        Passes-Within schema (txt "minLength") (txt "maxLength") (lib.runes s) path
          (short_string (lib.runes s)) (long_string (lib.runes s)) in
      let shaped = Passes-pattern (as_text (find (txt "pattern") schema)) s path in
      (
        λ h.
            let low = (Passes-or_then _ _).0 h in
            let high = (Passes-or_then _ _).0 low.1 in (sized.0 (low.0, high.0), shaped.0 high.1),
        λ h.
            let both = sized.1 h.0 in
            (Passes-or_then _ _).1 (both.0, (Passes-or_then _ _).1 (both.1, shaped.1 h.1)),
      )
  Passes-string schema null path = (λ h. tt, λ h. refl)
  Passes-string schema (boolean b) path = (λ h. tt, λ h. refl)
  Passes-string schema (number f) path = (λ h. tt, λ h. refl)
  Passes-string schema (array vs) path = (λ h. tt, λ h. refl)
  Passes-string schema (object ms) path = (λ h. tt, λ h. refl)

  Passes-number_key :
      {P : ℕ → Type 0} (schema : Members) (key : Text) (f : ℕ) (path : Text) (holds : ℕ → Bool)
      → ((m : ℕ) → (holds m ≡ true) ↔ P m)
      → Passes (number_key lib schema key f path holds) ↔ Given (as_float (find key schema)) P
  Passes-number_key schema key f path holds p =
      Passes-on_key (as_float (find key schema)) (λ m. Passes-require (holds m) path _ (p m))

  pub Passes-number :
      (schema : Members) (v : Json) (path : Text)
      → Passes (validate_number lib schema v path) ↔ NumberHolds lib schema v
  unfolding validate_number
  Passes-number schema (number f) path =
      let least =
        Passes-number_key schema (txt "minimum") f path _ (λ m. true-not (lib.float_lt f m)) in
      let most =
        Passes-number_key schema (txt "maximum") f path _ (λ m. true-not (lib.float_lt m f)) in
      let above =
        Passes-number_key schema (txt "exclusiveMinimum") f path _
          (λ m. true-and_not (lib.float_lt f m) (lib.float_eq f m)) in
      let below =
        Passes-number_key schema (txt "exclusiveMaximum") f path _
          (λ m. true-and_not (lib.float_lt m f) (lib.float_eq f m)) in
      let multiple = Passes-number_key schema (txt "multipleOf") f path _ (λ m.
        true-or (lib.float_eq m 0) (not (lib.is_off f m)) itself (true-not (lib.is_off f m))) in
      (
        λ h.
            let h1 = (Passes-or_then _ _).0 h in
            let h2 = (Passes-or_then _ _).0 h1.1 in
            let h3 = (Passes-or_then _ _).0 h2.1 in
            let h4 = (Passes-or_then _ _).0 h3.1 in
            (least.0 h1.0, most.0 h2.0, above.0 h3.0, below.0 h4.0, multiple.0 h4.1),
        λ h.
            let h4 = (Passes-or_then _ _).1 (below.1 h.3, multiple.1 h.4) in
            let h3 = (Passes-or_then _ _).1 (above.1 h.2, h4) in
            let h2 = (Passes-or_then _ _).1 (most.1 h.1, h3) in
            (Passes-or_then _ _).1 (least.1 h.0, h2),
      )
  Passes-number schema null path = (λ h. tt, λ h. refl)
  Passes-number schema (boolean b) path = (λ h. tt, λ h. refl)
  Passes-number schema (string s) path = (λ h. tt, λ h. refl)
  Passes-number schema (array vs) path = (λ h. tt, λ h. refl)
  Passes-number schema (object ms) path = (λ h. tt, λ h. refl)
