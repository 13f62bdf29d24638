-- ===== src/JsonSchema/Validate/Checks.antt =====
-- jsonschema/validate.go: the checks of one value that need no sub-schema.
use fastmcp.JsonSchema.Validate.Keywords.{
  SchemaLib, ValidationError, as_float, bad_pattern, int_below, join_path, missing_property,
  no_match, not_type, not_types, on_key, out_of_bound, require, ◌or_then◌, additional_property,
  short_string, long_string,
}
use fastmcp.Prelude.{
  is_some, ℕ, Text, txt, text_eq, is_empty, Bool, true, false, not, ◌&&◌, List, [], ◌∷◌, Option,
  none, some, Result, done, failed, if◌then◌else◌,
}
use fastmcp.Prelude.Int.{pos}
use fastmcp.Json.{
  Json, null, boolean, number, string, array, object, Items, no_items, item_then, Members,
  no_members, member_then,
}
use fastmcp.JsonSchema.{find, as_text}

module _ (lib : SchemaLib) where
  -- jsonEqual
  abbrev pub json_equal : Json → Json → Bool
  json_equal (number a) (number b) = lib.float_eq a b
  json_equal (number a) v = false
  json_equal v (number b) = false
  json_equal v w = lib.deep_equal v w

  unfoldable pub has_equal : Items → Json → Bool
  has_equal no_items v = false
  has_equal (item_then a allowed) v = if json_equal a v then true else has_equal allowed v

  abbrev pub is_integral : Json → Bool
  is_integral (number f) = lib.is_integer f
  is_integral v = false

  -- the kind that matchesType asks for, of a value
  abbrev pub is_object : Json → Bool
  is_object (object ms) = true
  is_object v = false

  abbrev pub is_array : Json → Bool
  is_array (array vs) = true
  is_array v = false

  abbrev pub is_string : Json → Bool
  is_string (string s) = true
  is_string v = false

  abbrev pub is_boolean : Json → Bool
  is_boolean (boolean b) = true
  is_boolean v = false

  abbrev pub is_nil : Json → Bool
  is_nil null = true
  is_nil v = false

  abbrev pub is_number : Json → Bool
  is_number (number f) = true
  is_number v = false

  unfoldable pub matches_type : Text → Json → Bool
  matches_type t v =
      if text_eq t (txt "object")
      then is_object v
      else if text_eq t (txt "array")
      then is_array v
      else if text_eq t (txt "string")
      then is_string v
      else if text_eq t (txt "boolean")
      then is_boolean v
      else if text_eq t (txt "null")
      then is_nil v
      else if text_eq t (txt "number")
      then is_number v
      else if text_eq t (txt "integer")
      then is_integral v
      else true

  unfoldable pub some_type : Items → Json → Bool
  unfolding matches_type
  some_type no_items v = false
  some_type (item_then (string t) ts) v = if matches_type t v then true else some_type ts v
  some_type (item_then e ts) v = some_type ts v

  -- validateTypeAny, with validateType
  abbrev pub validate_type_any : Json → Json → Text → Option ValidationError
  validate_type_any (string t) v path = require (matches_type t v) path (not_type t v)
  validate_type_any (array ts) v path = require (some_type ts v) path (not_types ts v)
  validate_type_any raw v path = none

  -- the loop over the names of `required`
  unfoldable pub missing : List Text → Members → Text → Option ValidationError
  missing [] obj path = none
  missing (n ∷ ns) obj path =
      require (is_some (find n obj)) path (missing_property n) or_then missing ns obj path

  unfoldable pub undeclared : Members → Members → Text → Option ValidationError
  undeclared no_members props path = none
  undeclared (member_then key v obj) props path =
      require (is_some (find key props)) (join_path path key) additional_property
      or_then undeclared obj props path

  unfoldable pub repeats : Json → Items → Bool
  repeats v no_items = false
  repeats v (item_then w vs) = if json_equal v w then true else repeats v vs

  unfoldable pub all_unique : Items → Bool
  unfolding repeats
  all_unique no_items = true
  all_unique (item_then v vs) = let rest = all_unique vs in if repeats v vs then false else rest

  abbrev pub match_pattern : Text → Text → Text → Result (Text → Bool) → Option ValidationError
  match_pattern s path p (failed m) = some (record { path = path; message = bad_pattern m })
  match_pattern s path p (done re) = require (re s) path (no_match p)

  abbrev pub on_pattern : Option Text → Text → Text → Option ValidationError
  on_pattern none s path = none
  on_pattern (some p) s path = if is_empty p then none else match_pattern s path p (lib.compile p)

  unfoldable pub validate_string : Members → Json → Text → Option ValidationError
  validate_string schema (string s) path =
      on_key (as_float (find (txt "minLength") schema)) (λ n.
        require (not (int_below (pos (lib.runes s)) (lib.to_int n))) path
          (short_string (lib.runes s) (lib.to_int n)))
      or_then on_key (as_float (find (txt "maxLength") schema)) (λ n.
        require (not (int_below (lib.to_int n) (pos (lib.runes s)))) path
          (long_string (lib.runes s) (lib.to_int n)))
      or_then on_pattern (as_text (find (txt "pattern") schema)) s path
  validate_string schema v path = none

  abbrev pub number_key : Members → Text → ℕ → Text → (ℕ → Bool) → Option ValidationError
  number_key schema key f path holds =
      on_key (as_float (find key schema)) (λ m. require (holds m) path (out_of_bound key f m))

  unfoldable pub validate_number : Members → Json → Text → Option ValidationError
  validate_number schema (number f) path =
      number_key schema (txt "minimum") f path (λ m. not (lib.float_lt f m))
      or_then number_key schema (txt "maximum") f path (λ m. not (lib.float_lt m f))
      or_then number_key schema (txt "exclusiveMinimum") f path
          (λ m. not (lib.float_lt f m) && not (lib.float_eq f m))
      or_then number_key schema (txt "exclusiveMaximum") f path
          (λ m. not (lib.float_lt m f) && not (lib.float_eq f m))
      or_then number_key schema (txt "multipleOf") f path
          (λ m. if lib.float_eq m 0 then true else not (lib.is_off f m))
  validate_number schema v path = none
