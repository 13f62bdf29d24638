-- ===== src/JsonSchema/Validate/Keywords.antt =====
-- jsonschema/validate.go: errors, keywords and nesting, which the checks of Validate share. What these ask of floats,
-- regular expressions, runes, decimals and reflect.DeepEqual is a parameter. An error keeps, of its message,
-- what it is about.
use fastmcp.Prelude.{
  ℕ, suc, Text, txt, is_empty, Bool, true, false, not, ◌++◌, List, [], ◌∷◌, Option, none, some,
  Result, ltb, if◌then◌else◌,
}
use Prim.Native.Nat.{max}
use fastmcp.Prelude.Int.{ℤ, pos, negsuc}
use fastmcp.Json.{
  Json, null, boolean, number, string, array, object, Items, no_items, item_then, Members,
  no_members, member_then,
}

-- a float64 is its bits
pub record SchemaLib : Type 0 where
  pub float_eq : ℕ → ℕ → Bool
  pub float_lt : ℕ → ℕ → Bool
  -- x == math.Trunc(x) and not an infinity
  pub is_integer : ℕ → Bool
  pub to_int : ℕ → ℤ
  -- |f/m - round(f/m)| > 1e-9
  pub is_off : ℕ → ℕ → Bool
  pub deep_equal : Json → Json → Bool
  -- len([]rune(s))
  pub runes : Text → ℕ
  pub compile : Text → Result (Text → Bool)
  pub decimal : ℕ → Text

pub data Violation : Type 0 where
  no_any_of not_in_enum additional_property not_unique : Violation
  one_of_matched : ℕ → Violation
  not_const : Json → Violation
  not_type : Text → Json → Violation
  not_types : Items → Json → Violation
  missing_property : Text → Violation
  few_items many_items short_string long_string : ℕ → ℤ → Violation
  bad_pattern : Text → Violation
  no_match : Text → Violation
  -- a keyword on numbers, with the value and the bound
  out_of_bound : Text → ℕ → ℕ → Violation

pub record ValidationError : Type 0 where
  pub path : Text
  pub message : Violation

abbrev pub join_path : Text → Text → Text
join_path base key = if is_empty base then txt "/" ++ key else base ++ (txt "/" ++ key)

-- `if err := …; err != nil { return err }`, and what follows
infixr 30 ◌or_then◌
abbrev pub ◌or_then◌ : Option ValidationError → Option ValidationError → Option ValidationError
some e or_then next = some e
none or_then next = next

-- the error of a test that has to hold
abbrev pub require : Bool → Text → Violation → Option ValidationError
require true path what = none
require false path what = some (record { path = path; message = what })

-- a keyword that is there, of a type
abbrev pub on_key {ℓ} :
    {A : Type ℓ} → Option A → (A → Option ValidationError) → Option ValidationError
on_key none check = none
on_key (some raw) check = check raw

-- asSchemaList: the maps of an array
unfoldable pub maps_of : Items → List Members
maps_of no_items = []
maps_of (item_then (object ms) vs) = ms ∷ maps_of vs
maps_of (item_then v vs) = maps_of vs

abbrev pub as_schema_list : Json → List Members
as_schema_list (array vs) = maps_of vs
as_schema_list v = []

unfoldable pub items_length : Items → ℕ
items_length no_items = 0
items_length (item_then v vs) = suc (items_length vs)

abbrev pub int_below : ℤ → ℤ → Bool
int_below (pos a) (pos b) = ltb a b
int_below (pos a) (negsuc b) = false
int_below (negsuc a) (pos b) = true
int_below (negsuc a) (negsuc b) = ltb b a

-- asFloat
abbrev pub as_float : Option Json → Option ℕ
as_float (some (number f)) = some f
as_float v = none

abbrev pub is_true : Option Json → Bool
is_true (some (boolean b)) = b
is_true v = false

abbrev pub is_false : Option Json → Bool
is_false (some (boolean b)) = not b
is_false v = false

abbrev pub or_no_members : Option Members → Members
or_no_members none = no_members
or_no_members (some ms) = ms

-- how deep objects and arrays are nested
unfoldable mutual
  pub depth : Json → ℕ
  depth (object ms) = suc (depth_members ms)
  depth (array vs) = suc (depth_items vs)
  depth null = 0
  depth (boolean b) = 0
  depth (number f) = 0
  depth (string s) = 0

  pub depth_members : Members → ℕ
  depth_members no_members = 0
  depth_members (member_then k v ms) = max (depth v) (depth_members ms)

  pub depth_items : Items → ℕ
  depth_items no_items = 0
  depth_items (item_then v vs) = max (depth v) (depth_items vs)
