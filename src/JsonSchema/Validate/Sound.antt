-- ===== src/JsonSchema/Validate/Sound.antt =====
-- jsonschema/validate.go: Validate finds no error exactly in the values that satisfy the schema.
use fastmcp.Prelude.{ℕ, zero, suc, Text, txt, Option, ◌≡◌, ◌↔◌, refl, ◌==◌, ==_iff, true}
use fastmcp.Json.{Json, object, Members}
use fastmcp.JsonSchema.{find, as_array}
use fastmcp.JsonSchema.Validate.{any_of, matched, validate_step, validate_to}
use fastmcp.JsonSchema.Validate.Keywords.{
  SchemaLib, ValidationError, as_schema_list, no_any_of, one_of_matched, not_const, not_in_enum,
}
use fastmcp.JsonSchema.Validate.Checks.{json_equal, has_equal}
use fastmcp.JsonSchema.Validate.Satisfies.{OneHolds, Satisfying, SatisfiesTo, Satisfies}
use fastmcp.JsonSchema.Validate.Parts.{Passes-type, Passes-string, Passes-number, has_equal_iff}
use fastmcp.JsonSchema.Validate.Passing.{
  Passes, Passes-or_then, Passes-require, Passes-on_key, itself,
}
use fastmcp.JsonSchema.Validate.Subschemas.{
  Passes-all_of, any_of_iff, matched_one, Passes-object, Passes-array,
}

module _ (lib : SchemaLib) (rec : Members → Json → Text → Option ValidationError)
    (S : Members → Json → Type 0)
    (sound : (s : Members) (v : Json) (path : Text) → Passes (rec s v path) ↔ S s v) where
  one_of_iff :
      (raw v : Json) (path : Text)
      → ((matched lib rec (as_schema_list raw) v path == 1) ≡ true)
        ↔ OneHolds lib S (as_schema_list raw) v
  one_of_iff raw v path =
      let number = ==_iff (matched lib rec (as_schema_list raw) v path) 1 in
      let one = matched_one lib rec S sound (as_schema_list raw) v path in
      (λ h. one.0 (number.0 h), λ h. number.1 (one.1 h))

  Passes-validate_step :
      (schema : Members) (v : Json) (path : Text)
      → Passes (validate_step lib rec schema v path) ↔ Satisfying lib S schema v
  unfolding validate_step
  Passes-validate_step schema v path =
      let all =
        Passes-on_key (find (txt "allOf") schema)
          (λ raw. Passes-all_of lib rec S sound (as_schema_list raw) v path) in
      let some = Passes-on_key (find (txt "anyOf") schema) (λ raw.
        Passes-require (any_of lib rec (as_schema_list raw) v path) path no_any_of
          (any_of_iff lib rec S sound (as_schema_list raw) v path)) in
      let one = Passes-on_key (find (txt "oneOf") schema) (λ raw.
        Passes-require (matched lib rec (as_schema_list raw) v path == 1) path
          (one_of_matched (matched lib rec (as_schema_list raw) v path)) (one_of_iff raw v path)) in
      let const = Passes-on_key (find (txt "const") schema) (λ c.
        Passes-require (json_equal lib c v) path (not_const c)
          (itself {P = json_equal lib c v ≡ true})) in
      let enum = Passes-on_key (as_array (find (txt "enum") schema)) (λ allowed.
        Passes-require (has_equal lib allowed v) path not_in_enum (has_equal_iff lib allowed v)) in
      let typed = Passes-on_key (find (txt "type") schema) (λ raw. Passes-type lib raw v path) in
      let object = Passes-object lib rec S sound schema v path in
      let array = Passes-array lib rec S sound schema v path in
      let string = Passes-string lib schema v path in
      let number = Passes-number lib schema v path in
      (
        λ h.
            let h1 = (Passes-or_then _ _).0 h in
            let h2 = (Passes-or_then _ _).0 h1.1 in
            let h3 = (Passes-or_then _ _).0 h2.1 in
            let h4 = (Passes-or_then _ _).0 h3.1 in
            let h5 = (Passes-or_then _ _).0 h4.1 in
            let h6 = (Passes-or_then _ _).0 h5.1 in
            let h7 = (Passes-or_then _ _).0 h6.1 in
            let h8 = (Passes-or_then _ _).0 h7.1 in
            let h9 = (Passes-or_then _ _).0 h8.1 in
            record {
              all_hold = all.0 h1.0;
              some_holds = some.0 h2.0;
              one_holds = one.0 h3.0;
              is_const = const.0 h4.0;
              in_enum = enum.0 h5.0;
              is_typed = typed.0 h6.0;
              object_holds = object.0 h7.0;
              array_holds = array.0 h8.0;
              string_holds = string.0 h9.0;
              number_holds = number.0 h9.1;
            },
        λ s.
            let h9 = (Passes-or_then _ _).1 (string.1 s.string_holds, number.1 s.number_holds) in
            let h8 = (Passes-or_then _ _).1 (array.1 s.array_holds, h9) in
            let h7 = (Passes-or_then _ _).1 (object.1 s.object_holds, h8) in
            let h6 = (Passes-or_then _ _).1 (typed.1 s.is_typed, h7) in
            let h5 = (Passes-or_then _ _).1 (enum.1 s.in_enum, h6) in
            let h4 = (Passes-or_then _ _).1 (const.1 s.is_const, h5) in
            let h3 = (Passes-or_then _ _).1 (one.1 s.one_holds, h4) in
            let h2 = (Passes-or_then _ _).1 (some.1 s.some_holds, h3) in
            (Passes-or_then _ _).1 (all.1 s.all_hold, h2),
      )

module _ (lib : SchemaLib) where
  pub Passes-validate_to :
      (n : ℕ) (schema : Members) (v : Json) (path : Text)
      → Passes (validate_to lib n schema v path) ↔ SatisfiesTo lib n schema v
  unfolding validate_to SatisfiesTo
  Passes-validate_to zero schema v path = (λ h. tt, λ h. refl)
  Passes-validate_to (suc n) schema v path =
      Passes-validate_step lib (validate_to lib n) (SatisfiesTo lib n) (Passes-validate_to n) schema
        v path
