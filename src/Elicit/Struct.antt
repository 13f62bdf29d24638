-- ===== src/Elicit/Struct.antt =====
-- elicit/schema.go: the reflection of a struct type into the fields of a schema.
use fastmcp.Elicit.{ElicitField, plain_field}
use fastmcp.Prelude.{
  Text, txt, text_eq, is_empty, Bool, true, false, not, ◌&&◌, ◌++◌, List, [], ◌∷◌, Option, none,
  some, Result, done, failed, if◌then◌else◌,
}
use fastmcp.Json.{string}
use fastmcp.Uri.{cut, split}
use fastmcp.Uri.Placeholders.{trim_space}
use fastmcp.Auth.{contains_string}

pub data FieldType : Type 0 where
  string_kind : FieldType
  bool_kind : FieldType
  -- the signed and unsigned kinds that the code lists
  integer_kind : FieldType
  float_kind : FieldType
  -- another kind, by its name
  other_kind : Text → FieldType
  pointer_to : FieldType → FieldType

pub record StructField : Type 0 where
  pub field_name : Text
  pub exported : Bool
  pub field_type : FieldType
  -- the values of its tags json and jsonschema
  pub json_tag : Text
  pub schema_tag : Text

-- reflect.TypeOf of a value
pub data SourceType : Type 0 where
  no_type : SourceType
  struct_type : List StructField → SourceType
  scalar_type : Text → SourceType
  pointer_type : SourceType → SourceType

-- primitiveType
unfoldable pub primitive_type : FieldType → Result Text
primitive_type string_kind = done (txt "string")
primitive_type bool_kind = done (txt "boolean")
primitive_type integer_kind = done (txt "integer")
primitive_type float_kind = done (txt "number")
primitive_type (other_kind k) =
    failed (txt "unsupported kind " ++ (k ++ txt " for elicitation (only primitives are allowed)"))
primitive_type (pointer_to t) = primitive_type t

abbrev pub is_pointer : FieldType → Bool
is_pointer (pointer_to t) = true
is_pointer t = false

-- parseJSONTag, of the parts of the tag
abbrev pub tag_name : Text → List Text → Text
tag_name field [] = field
tag_name field (name ∷ opts) = if is_empty name then field else name

abbrev pub tag_omits : List Text → Bool
tag_omits [] = false
tag_omits (name ∷ opts) = contains_string opts (txt "omitempty")

unfoldable pub parse_json_tag : StructField → Text × Bool
unfolding split contains_string
parse_json_tag sf =
    let parts = split b',' sf.json_tag in (tag_name sf.field_name parts, tag_omits parts)

-- one `key=value` of a jsonschema tag
unfoldable pub apply_pair : Text → Text → ElicitField → ElicitField
unfolding split
apply_pair key val f =
    if text_eq key (txt "title")
    then record f { title = val }
    else if text_eq key (txt "description")
    then record f { description = val }
    else if text_eq key (txt "default")
    then record f { default_value = string val }
    else if text_eq key (txt "enum")
    then record f { enum = split b'|' val }
    else f

abbrev pub apply_part : Option (Text × Text) → ElicitField → ElicitField
apply_part none f = f
apply_part (some kv) f = apply_pair (trim_space kv.0) (trim_space kv.1) f

unfoldable pub apply_parts : List Text → ElicitField → ElicitField
unfolding cut
apply_parts [] f = f
apply_parts (part ∷ parts) f = apply_parts parts (apply_part (cut b'=' part) f)

-- applyJSONSchemaTag
unfoldable pub apply_json_schema_tag : Text → ElicitField → ElicitField
unfolding apply_parts split
apply_json_schema_tag tag f = if is_empty tag then f else apply_parts (split b',' tag) f

-- the field that a struct field makes, of a type
unfoldable pub reflected : StructField → Text → ElicitField
unfolding parse_json_tag apply_json_schema_tag
reflected sf type = apply_json_schema_tag sf.schema_tag (
    plain_field (parse_json_tag sf).0 type [] [] []
      (not (is_pointer sf.field_type) && not (parse_json_tag sf).1))

abbrev pub with_field : ElicitField → Result (List ElicitField) → Result (List ElicitField)
with_field f (failed m) = failed m
with_field f (done fs) = done (f ∷ fs)

-- the fields that the loop of SchemaFromStruct does not skip
unfoldable pub is_shown : StructField → Bool
unfolding parse_json_tag
is_shown sf = sf.exported && not (text_eq (parse_json_tag sf).0 (txt "-"))

abbrev pub reflect_field :
    StructField → Result Text → Result (List ElicitField) → Result (List ElicitField)
reflect_field sf (failed m) rest =
    failed (txt "elicit: field " ++ (sf.field_name ++ (txt ": " ++ m)))
reflect_field sf (done type) rest = with_field (reflected sf type) rest

unfoldable pub reflect_fields : List StructField → Result (List ElicitField)
unfolding is_shown primitive_type reflected
reflect_fields [] = done []
reflect_fields (sf ∷ sfs) =
    let rest = reflect_fields sfs in
    if is_shown sf then reflect_field sf (primitive_type sf.field_type) rest else rest

abbrev pub reflect_pointed : SourceType → Result (List ElicitField)
reflect_pointed no_type = failed (txt "elicit: cannot build schema from nil")
reflect_pointed (struct_type sfs) = reflect_fields sfs
reflect_pointed (scalar_type k) = failed (txt "elicit: schema source must be a struct, got " ++ k)
reflect_pointed (pointer_type t) = reflect_pointed t

-- SchemaFromStruct
unfoldable pub schema_from_struct : SourceType → Result (List ElicitField)
unfolding reflect_fields
schema_from_struct t = reflect_pointed t
