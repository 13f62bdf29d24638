-- ===== src/JsonSchema/Validate/Satisfies.antt =====
-- When a decoded value satisfies a schema, keyword by keyword, as a predicate.
use fastmcp.Prelude.{
  Bool, true, false, ℕ, zero, suc, Text, txt, Bool, true, false, List, [], ◌∷◌, Option, none, some,
  Result, done, failed, All, ◌≡◌, ◌≢◌, ◌⊎◌,
}
use fastmcp.Prelude.Int.{pos}
use fastmcp.Json.{
  Json, string, array, object, number, Items, no_items, item_then, Members, no_members, member_then,
}
use fastmcp.JsonSchema.{find, as_text, as_map, as_array, as_strings}
use fastmcp.JsonSchema.Validate.Keywords.{
  SchemaLib, as_schema_list, as_float, is_true, is_false, or_no_members, items_length, int_below,
  depth,
}
use fastmcp.JsonSchema.Validate.Checks.{json_equal, matches_type}

-- what a keyword asks for, if it is there
abbrev pub Given {ℓ} : {A : Type ℓ} → Option A → (A → Type 0) → Type 0
Given none P = Unit
Given (some a) P = P a

abbrev pub AllDeclared : Members → Members → Type 0
AllDeclared no_members props = Unit
AllDeclared (member_then key v obj) props = (find key props ≢ none) × AllDeclared obj props

-- what a keyword asks for, if it is set
abbrev pub When : Bool → Type 0 → Type 0
When true P = P
When false P = Unit

module _ (lib : SchemaLib) where
  abbrev pub HasEqual : Json → Items → Type 0
  HasEqual v no_items = ⊥
  HasEqual v (item_then a vs) = (json_equal lib a v ≡ true) ⊎ HasEqual v vs

  abbrev pub SomeType : Items → Json → Type 0
  SomeType no_items v = ⊥
  SomeType (item_then (string t) ts) v = (matches_type lib t v ≡ true) ⊎ SomeType ts v
  SomeType (item_then e ts) v = SomeType ts v

  abbrev pub IsTyped : Json → Json → Type 0
  IsTyped (string t) v = matches_type lib t v ≡ true
  IsTyped (array ts) v = SomeType ts v
  IsTyped raw v = Unit

  abbrev pub Differs : Json → Items → Type 0
  Differs v no_items = Unit
  Differs v (item_then w vs) = (json_equal lib v w ≡ false) × Differs v vs

  -- no two of its items are equal
  abbrev pub AllDiffer : Items → Type 0
  AllDiffer no_items = Unit
  AllDiffer (item_then v vs) = Differs v vs × AllDiffer vs

  abbrev pub Within : Members → Text → ℕ → Text → Type 0
  Within schema least n most =
      Given (as_float (find least schema)) (λ f. int_below (pos n) (lib.to_int f) ≡ false)
      × Given (as_float (find most schema)) (λ f. int_below (lib.to_int f) (pos n) ≡ false)

  abbrev pub IsMatched : Text → Result (Text → Bool) → Type 0
  IsMatched s (failed m) = ⊥
  IsMatched s (done re) = re s ≡ true

  abbrev pub StringHolds : Members → Json → Type 0
  StringHolds schema (string s) =
      Within schema (txt "minLength") (lib.runes s) (txt "maxLength")
      × Given (as_text (find (txt "pattern") schema)) (λ p. (p ≡ []) ⊎ IsMatched s (lib.compile p))
  StringHolds schema v = Unit

  abbrev pub NumberHolds : Members → Json → Type 0
  NumberHolds schema (number f) =
      Given (as_float (find (txt "minimum") schema)) (λ m. lib.float_lt f m ≡ false)
      × Given (as_float (find (txt "maximum") schema)) (λ m. lib.float_lt m f ≡ false)
      × Given (as_float (find (txt "exclusiveMinimum") schema))
          (λ m. (lib.float_lt f m ≡ false) × (lib.float_eq f m ≡ false))
      × Given (as_float (find (txt "exclusiveMaximum") schema))
          (λ m. (lib.float_lt m f ≡ false) × (lib.float_eq f m ≡ false))
      × Given (as_float (find (txt "multipleOf") schema))
          (λ m. (lib.float_eq m 0 ≡ true) ⊎ (lib.is_off f m ≡ false))
  NumberHolds schema v = Unit

  -- over the predicate of sub-schemas
  module _ (S : Members → Json → Type 0) where
    abbrev pub SomeHolds : List Members → Json → Type 0
    SomeHolds [] v = ⊥
    SomeHolds (s ∷ ss) v = S s v ⊎ SomeHolds ss v

    -- one of them and no other
    abbrev pub OneHolds : List Members → Json → Type 0
    OneHolds [] v = ⊥
    OneHolds (s ∷ ss) v = (S s v × ¬ SomeHolds ss v) ⊎ ((¬ S s v) × OneHolds ss v)

    -- each declared property that the object has
    abbrev pub PropertiesHold : Members → Members → Type 0
    PropertiesHold no_members obj = Unit
    PropertiesHold (member_then key sub props) obj =
        Given (find key obj) (λ v. Given (as_map (some sub)) (λ s. S s v))
        × PropertiesHold props obj

    abbrev pub ItemsHold : Members → Items → Type 0
    ItemsHold s no_items = Unit
    ItemsHold s (item_then v vs) = S s v × ItemsHold s vs

    abbrev pub ObjectHolds : Members → Json → Type 0
    ObjectHolds schema (object obj) =
        All (λ n. find n obj ≢ none) (as_strings (find (txt "required") schema))
        × PropertiesHold (or_no_members (as_map (find (txt "properties") schema))) obj
        × When (is_false (find (txt "additionalProperties") schema))
            (AllDeclared obj (or_no_members (as_map (find (txt "properties") schema))))
    ObjectHolds schema v = Unit

    abbrev pub ArrayHolds : Members → Json → Type 0
    ArrayHolds schema (array vs) =
        Within schema (txt "minItems") (items_length vs) (txt "maxItems")
        × When (is_true (find (txt "uniqueItems") schema)) (AllDiffer vs)
        × Given (as_map (find (txt "items") schema)) (λ s. ItemsHold s vs)
    ArrayHolds schema v = Unit

    pub record Satisfying (schema : Members) (v : Json) : Type 0 where
      pub all_hold :
          Given (find (txt "allOf") schema) (λ raw. All (λ s. S s v) (as_schema_list raw))
      pub some_holds : Given (find (txt "anyOf") schema) (λ raw. SomeHolds (as_schema_list raw) v)
      pub one_holds : Given (find (txt "oneOf") schema) (λ raw. OneHolds (as_schema_list raw) v)
      pub is_const : Given (find (txt "const") schema) (λ c. json_equal lib c v ≡ true)
      pub in_enum : Given (as_array (find (txt "enum") schema)) (HasEqual v)
      pub is_typed : Given (find (txt "type") schema) (λ raw. IsTyped raw v)
      pub object_holds : ObjectHolds schema v
      pub array_holds : ArrayHolds schema v
      pub string_holds : StringHolds schema v
      pub number_holds : NumberHolds schema v

  -- to a depth of sub-schemas
  unfoldable pub SatisfiesTo : ℕ → Members → Json → Type 0
  SatisfiesTo zero schema v = Unit
  SatisfiesTo (suc n) schema v = Satisfying (SatisfiesTo n) schema v

  unfoldable pub Satisfies : Members → Json → Type 0
  unfolding SatisfiesTo
  Satisfies schema v = SatisfiesTo (depth (object schema)) schema v
