-- ===== src/JsonSchema/Validate.antt =====
-- jsonschema/validate.go: Validate, and its recursion over the sub-schemas.
pub mod Checks
pub mod Keywords
pub mod Satisfies
pub mod Passing
pub mod Parts
pub mod Subschemas
pub mod Sound
pub mod Agreement
pub mod Enough
use fastmcp.Prelude.{
  is_some, ℕ, zero, suc, ◌+◌, Text, txt, text_eq, is_empty, Bool, true, false, not, ◌&&◌, ◌++◌,
  List, [], ◌∷◌, Option, none, some, Result, done, failed, ltb, ◌==◌, if◌then◌else◌,
}
use Prim.Native.Nat.{max}
use fastmcp.Prelude.Int.{ℤ, pos, negsuc}
use fastmcp.Json.{
  Json, null, boolean, number, string, array, object, Items, no_items, item_then, Members,
  no_members, member_then,
}
use fastmcp.JsonSchema.{find, as_text, as_map, as_array, as_strings}
use fastmcp.JsonSchema.Validate.Keywords.{
  SchemaLib, ValidationError, Violation, additional_property, as_float, as_schema_list, depth,
  depth_items, depth_members, few_items, int_below, is_false, is_true, items_length, join_path,
  long_string, many_items, maps_of, missing_property, no_any_of, no_match, not_const, not_in_enum,
  not_type, not_types, not_unique, on_key, one_of_matched, or_no_members, out_of_bound, require,
  short_string, ◌or_then◌,
}
use fastmcp.JsonSchema.Validate.Checks.{
  all_unique, has_equal, is_array, is_boolean, is_integral, is_nil, is_number, is_object, is_string,
  json_equal, match_pattern, matches_type, missing, number_key, on_pattern, repeats, some_type,
  undeclared, validate_number, validate_string, validate_type_any,
}

module _ (lib : SchemaLib) where
  -- the keywords that hold sub-schemas, over the validator of these
  module _ (rec : Members → Json → Text → Option ValidationError) where
    unfoldable pub all_of : List Members → Json → Text → Option ValidationError
    all_of [] v path = none
    all_of (s ∷ ss) v path = rec s v path or_then all_of ss v path

    abbrev pub passes : Option ValidationError → Bool
    passes none = true
    passes (some e) = false

    unfoldable pub any_of : List Members → Json → Text → Bool
    any_of [] v path = false
    any_of (s ∷ ss) v path = if passes (rec s v path) then true else any_of ss v path

    unfoldable pub matched : List Members → Json → Text → ℕ
    matched [] v path = 0
    matched (s ∷ ss) v path =
        let rest = matched ss v path in if passes (rec s v path) then suc rest else rest

    -- a nil schema has no constraint
    abbrev pub on_subschema : Option Members → Json → Text → Option ValidationError
    on_subschema none v path = none
    on_subschema (some s) v path = rec s v path

    abbrev pub on_value : Json → Option Json → Text → Option ValidationError
    on_value sub none path = none
    on_value sub (some v) path = on_subschema (as_map (some sub)) v path

    unfoldable pub check_properties : Members → Members → Text → Option ValidationError
    check_properties no_members obj path = none
    check_properties (member_then key sub props) obj path =
        on_value sub (find key obj) (join_path path key) or_then check_properties props obj path

    unfoldable pub check_items : Members → Items → ℕ → Text → Option ValidationError
    check_items s no_items i path = none
    check_items s (item_then v vs) i path =
        rec s v (path ++ (txt "/" ++ lib.decimal i)) or_then check_items s vs (i + 1) path

    abbrev pub on_items : Option Members → Items → Text → Option ValidationError
    on_items none vs path = none
    on_items (some s) vs path = check_items s vs 0 path

    unfoldable pub validate_object : Members → Json → Text → Option ValidationError
    unfolding missing undeclared check_properties
    validate_object schema (object obj) path =
        let props = or_no_members (as_map (find (txt "properties") schema)) in
        missing lib (as_strings (find (txt "required") schema)) obj path
        or_then check_properties props obj path
        or_then (if is_false (find (txt "additionalProperties") schema)
            then undeclared lib obj props path
            else none)
    validate_object schema v path = none

    unfoldable pub validate_array : Members → Json → Text → Option ValidationError
    unfolding all_unique check_items
    validate_array schema (array vs) path =
        let n = items_length vs in
        on_key (as_float (find (txt "minItems") schema))
          (λ m. require (not (int_below (pos n) (lib.to_int m))) path (few_items n (lib.to_int m)))
        or_then on_key (as_float (find (txt "maxItems") schema)) (λ m.
          require (not (int_below (lib.to_int m) (pos n))) path (many_items n (lib.to_int m)))
        or_then require
            (if is_true (find (txt "uniqueItems") schema) then all_unique lib vs else true) path
            not_unique
        or_then on_items (as_map (find (txt "items") schema)) vs path
    validate_array schema v path = none

    -- validateValue of a schema that is not nil
    unfoldable pub validate_step : Members → Json → Text → Option ValidationError
    unfolding find all_of any_of matched has_equal some_type validate_object validate_array
        validate_string validate_number
    validate_step schema v path =
        on_key (find (txt "allOf") schema) (λ raw. all_of (as_schema_list raw) v path)
        or_then on_key (find (txt "anyOf") schema)
            (λ raw. require (any_of (as_schema_list raw) v path) path no_any_of)
        or_then on_key (find (txt "oneOf") schema) (λ raw.
          require (matched (as_schema_list raw) v path == 1) path
            (one_of_matched (matched (as_schema_list raw) v path)))
        or_then on_key (find (txt "const") schema)
            (λ c. require (json_equal lib c v) path (not_const c))
        or_then on_key (as_array (find (txt "enum") schema))
            (λ allowed. require (has_equal lib allowed v) path not_in_enum)
        or_then on_key (find (txt "type") schema) (λ raw. validate_type_any lib raw v path)
        or_then validate_object schema v path
        or_then validate_array schema v path
        or_then validate_string lib schema v path
        or_then validate_number lib schema v path

  -- the recursion, to a depth of sub-schemas
  unfoldable pub validate_to : ℕ → Members → Json → Text → Option ValidationError
  unfolding validate_step
  validate_to zero schema v path = none
  validate_to (suc n) schema v path = validate_step (validate_to n) schema v path

  -- Validate
  unfoldable pub validate : Members → Json → Option ValidationError
  unfolding validate_to
  validate schema v = validate_to (depth (object schema)) schema v []
