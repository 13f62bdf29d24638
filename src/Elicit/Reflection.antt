-- ===== src/Elicit/Reflection.antt =====
-- elicit/schema.go: what SchemaFromStruct makes of a struct, or of pointers to one.
use fastmcp.Prelude.{
  arith, true, false, All, text_eq_iff, ◌≢◌, ◌↔◌, ℕ, zero, suc, Text, txt, Bool, not, ◌&&◌, List,
  [], ◌∷◌, Option, none, some, Result, done, failed, ◌≡◌, refl, sym, ap, subst, ◌∙◌, ◌⊎◌, inl, inr,
  Bool-cases,
}
use fastmcp.Uri.{cut, split}
use fastmcp.Uri.Splitting.{join_with, join_with-split, head_and_tail, split-pieces}
use fastmcp.Auth.{contains_string}
use fastmcp.Elicit.{ElicitField}
use fastmcp.Elicit.Struct.{
  StructField, FieldType, string_kind, bool_kind, integer_kind, float_kind, other_kind, pointer_to,
  SourceType, struct_type, pointer_type, primitive_type, is_pointer, tag_name, parse_json_tag,
  apply_pair, apply_part, apply_parts, apply_json_schema_tag, reflected, is_shown, reflect_field,
  reflect_fields, schema_from_struct,
}

-- the primitive type of a kind, behind any pointers
pub data HasType : FieldType → Text → Type 0 where
  string_typed : HasType string_kind (txt "string")
  boolean_typed : HasType bool_kind (txt "boolean")
  integer_typed : HasType integer_kind (txt "integer")
  number_typed : HasType float_kind (txt "number")
  typed_behind : {t : FieldType} {name : Text} → HasType t name → HasType (pointer_to t) name

pub data IsUnsupported : FieldType → Type 0 where
  unsupported_kind : {k : Text} → IsUnsupported (other_kind k)
  unsupported_behind : {t : FieldType} → IsUnsupported t → IsUnsupported (pointer_to t)

-- the json tag of a struct field: its first part, and the options behind it, between commas
abbrev pub IsTag : Text → Text → List Text → Type 0
IsTag tag first opts =
    (join_with b',' (first ∷ opts) ≡ tag) × All (All (λ c. c ≢ b',')) (first ∷ opts)

-- the name of a struct field: the first part of its tag, or without one its own
abbrev pub IsNamed : StructField → Text → Text → Type 0
IsNamed sf first name = (first ≢ [] → name ≡ first) × (first ≡ [] → name ≡ sf.field_name)

abbrev pub PointsOn : FieldType → Type 0
PointsOn (pointer_to t) = Unit
PointsOn t = ⊥

abbrev pub Reflects : StructField → ElicitField → Type 0
Reflects sf f =
    (first : Text) × (opts : List Text) × IsTag sf.json_tag first opts
    × IsNamed sf first f.name
    × (sf.exported ≡ true)
    × (f.name ≢ txt "-")
    × HasType sf.field_type f.type
    × ((f.required ≡ true) ↔ ((¬ PointsOn sf.field_type) × All (λ o. o ≢ txt "omitempty") opts))

-- a struct field that is passed over: it is not exported, or its name is "-"
abbrev pub IsHidden : StructField → Type 0
IsHidden sf =
    (sf.exported ≡ false)
    ⊎ ((first : Text) × (opts : List Text) × IsTag sf.json_tag first opts
        × IsNamed sf first (txt "-"))

-- the fields are those of the struct fields that are not hidden, in order
abbrev pub AreReflected : List StructField → List ElicitField → Type 0
AreReflected [] [] = Unit
AreReflected [] (f ∷ fs) = ⊥
AreReflected (sf ∷ sfs) [] = IsHidden sf × AreReflected sfs []
AreReflected (sf ∷ sfs) (f ∷ fs) =
    (IsHidden sf × AreReflected sfs (f ∷ fs)) ⊎ (Reflects sf f × AreReflected sfs fs)

-- a struct field that is not passed over has an unsupported kind
abbrev pub SomeUnsupported : List StructField → Type 0
SomeUnsupported [] = ⊥
SomeUnsupported (sf ∷ sfs) =
    ((name : Text) × (first : Text) × (opts : List Text) × IsTag sf.json_tag first opts
      × IsNamed sf first name
      × (sf.exported ≡ true)
      × (name ≢ txt "-")
      × IsUnsupported sf.field_type)
    ⊎ SomeUnsupported sfs

abbrev pub IsReflection : List StructField → Result (List ElicitField) → Type 0
IsReflection sfs (done fs) = AreReflected sfs fs
IsReflection sfs (failed m) = SomeUnsupported sfs

abbrev pub pointers_to : ℕ → SourceType → SourceType
pointers_to zero t = t
pointers_to (suc n) t = pointer_type (pointers_to n t)

abbrev IsTyped : FieldType → Result Text → Type 0
IsTyped t (done name) = HasType t name
IsTyped t (failed m) = IsUnsupported t

pointed-IsTyped : (t : FieldType) (r : Result Text) → IsTyped t r → IsTyped (pointer_to t) r
pointed-IsTyped t (done name) h = typed_behind h
pointed-IsTyped t (failed m) h = unsupported_behind h

primitive_type-IsTyped : (t : FieldType) → IsTyped t (primitive_type t)
unfolding primitive_type
primitive_type-IsTyped string_kind = string_typed
primitive_type-IsTyped bool_kind = boolean_typed
primitive_type-IsTyped integer_kind = integer_typed
primitive_type-IsTyped float_kind = number_typed
primitive_type-IsTyped (other_kind k) = unsupported_kind
primitive_type-IsTyped (pointer_to t) =
    pointed-IsTyped t (primitive_type t) (primitive_type-IsTyped t)

-- what a jsonschema tag leaves as it is
abbrev core : ElicitField → Text × Text × Bool
core f = (f.name, f.type, f.required)

core-apply_pair : (key val : Text) (f : ElicitField) → core (apply_pair key val f) ≡ core f
unfolding apply_pair
core-apply_pair key val f = ground arith

core-apply_part : (kv : Option (Text × Text)) (f : ElicitField) → core (apply_part kv f) ≡ core f
core-apply_part none f = refl
core-apply_part (some kv) f = core-apply_pair _ _ f

core-apply_parts : (parts : List Text) (f : ElicitField) → core (apply_parts parts f) ≡ core f
unfolding apply_parts
core-apply_parts [] f = refl
core-apply_parts (part ∷ parts) f =
    core-apply_parts parts (apply_part (cut b'=' part) f) ∙ core-apply_part (cut b'=' part) f

core-apply_json_schema_tag :
    (tag : Text) (f : ElicitField) → core (apply_json_schema_tag tag f) ≡ core f
unfolding apply_json_schema_tag
core-apply_json_schema_tag [] f = refl
core-apply_json_schema_tag (c ∷ tag) f = core-apply_parts (split b',' (c ∷ tag)) f

not_dash : (sf : StructField) → is_shown sf ≡ true → (parse_json_tag sf).0 ≢ txt "-"
unfolding is_shown
not_dash sf h d =
    let same = (text_eq_iff (parse_json_tag sf).0 (txt "-")).1 d in
    let no : ⊥ = ground (arith, h, same) in no

tag_name-IsNamed :
    (sf : StructField) (first : Text) (opts : List Text)
    → IsNamed sf first (tag_name sf.field_name (first ∷ opts))
tag_name-IsNamed sf [] opts = (λ h. absurd (h refl), λ h. refl)
tag_name-IsNamed sf (c ∷ first) opts = (λ h. refl, λ h. cc)

IsTag-parts :
    (sf : StructField)
    → (first : Text) × (opts : List Text) × IsTag sf.json_tag first opts
      × (parse_json_tag sf
          ≡ (tag_name sf.field_name (first ∷ opts), contains_string opts (txt "omitempty")))
unfolding parse_json_tag
IsTag-parts sf =
    let (first, opts, at) = head_and_tail b',' sf.json_tag in
    (
      first,
      opts,
      (
        rw (sym at) (join_with-split b',' sf.json_tag),
        subst (All (All (λ c. c ≢ b','))) at (split-pieces b',' sf.json_tag),
      ),
      rw at refl,
    )

omits_iff : (opts : List Text) (w : Text) → (contains_string opts w ≡ false) ↔ All (λ o. o ≢ w) opts
unfolding contains_string
omits_iff [] w = (λ h. tt, λ h. refl)
omits_iff (o ∷ opts) w = grind (arith, text_eq_iff o w, omits_iff opts w)

is_pointer_iff : (t : FieldType) → (is_pointer t ≡ false) ↔ (¬ PointsOn t)
is_pointer_iff string_kind = (λ h x. x, λ h. refl)
is_pointer_iff bool_kind = (λ h x. x, λ h. refl)
is_pointer_iff integer_kind = (λ h x. x, λ h. refl)
is_pointer_iff float_kind = (λ h x. x, λ h. refl)
is_pointer_iff (other_kind k) = (λ h x. x, λ h. refl)
is_pointer_iff (pointer_to t) = (λ h. cc, λ h. absurd (h tt))

required_iff :
    (t : FieldType) (opts : List Text)
    → ((not (is_pointer t) && not (contains_string opts (txt "omitempty"))) ≡ true)
      ↔ ((¬ PointsOn t) × All (λ o. o ≢ txt "omitempty") opts)
required_iff t opts = (
  λ h. (
    (is_pointer_iff t).0 (ground (arith, h)),
    (omits_iff opts (txt "omitempty")).0 (ground (arith, h)),
  ),
  λ h. rw ((is_pointer_iff t).1 h.0, (omits_iff opts (txt "omitempty")).1 h.1) refl,
)

reflected-Reflects :
    (sf : StructField) (type : Text)
    → is_shown sf ≡ true
    → HasType sf.field_type type
    → Reflects sf (reflected sf type)
unfolding reflected is_shown
reflected-Reflects sf type shown h =
    let kept = core-apply_json_schema_tag sf.schema_tag _ in
    let (first, opts, tag, parsed) = IsTag-parts sf in
    let name = ap (λ c. c.0) kept ∙ ap (λ p. p.0) parsed in
    let required =
      ap (λ c. c.2) kept ∙ ap (λ p. not (is_pointer sf.field_type) && not p.1) parsed in
    (
      first,
      opts,
      tag,
      rw name (tag_name-IsNamed sf first opts),
      ground (arith, shown),
      (let kept_name = ap (λ c. c.0) kept in rw kept_name (not_dash sf shown)),
      subst (HasType sf.field_type) (sym (ap (λ c. c.1) kept)) h,
      rw required (required_iff sf.field_type opts),
    )

is_shown-IsHidden : (sf : StructField) → is_shown sf ≡ false → IsHidden sf
unfolding is_shown
is_shown-IsHidden sf e = elim (Bool-cases sf.exported) [
  | inr x ↦ inl x
  | inl x ↦
      let (first, opts, tag, parsed) = IsTag-parts sf in
      let dash : (parse_json_tag sf).0 ≡ txt "-" =
        (text_eq_iff _ (txt "-")).0 (ground (arith, x, e)) in
      inr (first, opts, tag, rw (sym dash, ap (λ p. p.0) parsed) (tag_name-IsNamed sf first opts))
]

reflect_field-IsReflection :
    (sf : StructField) (sfs : List StructField) (type : Result Text)
    (rest : Result (List ElicitField))
    → is_shown sf ≡ true
    → IsTyped sf.field_type type
    → IsReflection sfs rest
    → IsReflection (sf ∷ sfs) (reflect_field sf type rest)
unfolding is_shown
reflect_field-IsReflection sf sfs (failed m) rest e h k =
    let (first, opts, tag, parsed) = IsTag-parts sf in
    inl (
      (parse_json_tag sf).0,
      first,
      opts,
      tag,
      rw (ap (λ p. p.0) parsed) (tag_name-IsNamed sf first opts),
      ground (arith, e),
      not_dash sf e,
      h,
    )
reflect_field-IsReflection sf sfs (done type) (failed m) e h k = inr k
reflect_field-IsReflection sf sfs (done type) (done fs) e h k =
    inr (reflected-Reflects sf type e h, k)

hidden-IsReflection :
    (sf : StructField) (sfs : List StructField) (rest : Result (List ElicitField))
    → IsHidden sf
    → IsReflection sfs rest
    → IsReflection (sf ∷ sfs) rest
hidden-IsReflection sf sfs (failed m) h k = inr k
hidden-IsReflection sf sfs (done []) h k = (h, k)
hidden-IsReflection sf sfs (done (f ∷ fs)) h k = inl (h, k)

reflect_fields-IsReflection : (sfs : List StructField) → IsReflection sfs (reflect_fields sfs)
unfolding reflect_fields
reflect_fields-IsReflection [] = tt
reflect_fields-IsReflection (sf ∷ sfs) = elim (Bool-cases (is_shown sf)) [
  | inl e ↦ rw e (
      reflect_field-IsReflection sf sfs (primitive_type sf.field_type) (reflect_fields sfs) e
        (primitive_type-IsTyped sf.field_type) (reflect_fields-IsReflection sfs))
  | inr e ↦ rw e (
      hidden-IsReflection sf sfs (reflect_fields sfs) (is_shown-IsHidden sf e)
        (reflect_fields-IsReflection sfs))
]

-- SchemaFromStruct of a struct, or of pointers to it, ends in one of two ways. Its fields are those of
-- the exported struct fields whose name is not "-", in order, each with the name that the first part of
-- its tag gives, or else its own, the primitive type of its kind, and required exactly if it is no pointer
-- and no option of its tag is omitempty, whatever its jsonschema tag; or it fails, and one of these struct
-- fields has an unsupported kind.
pub schema_from_struct-IsReflection :
    (n : ℕ) (sfs : List StructField)
    → IsReflection sfs (schema_from_struct (pointers_to n (struct_type sfs)))
unfolding schema_from_struct
schema_from_struct-IsReflection zero sfs = reflect_fields-IsReflection sfs
schema_from_struct-IsReflection (suc n) sfs = schema_from_struct-IsReflection n sfs
