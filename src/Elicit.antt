-- ===== src/Elicit.antt =====
-- elicit/schema.go: the schemas of elicitation, their encoding, and their reflection from a struct type.
-- What reflect says of a type is data; json.Marshal is a parameter. A default is a JSON value, `null` for
-- nil, and white space is ASCII.
pub mod Struct
pub mod Request
pub mod Reflection
pub mod Outcomes
use fastmcp.Prelude.{
  Text, txt, text_eq, is_empty, Bool, true, false, not, ◌&&◌, ◌++◌, List, [], ◌∷◌, Option, none,
  some, Result, done, failed, if◌then◌else◌,
}
use fastmcp.Json.{
  Json, null, string, array, object, Items, no_items, item_then, Members, no_members, member_then,
}
use fastmcp.Uri.{cut, split}
use fastmcp.Uri.Placeholders.{trim_space}
use fastmcp.Auth.{contains_string}

pub record ElicitField : Type 0 where
  pub name : Text
  pub type : Text
  pub title : Text
  pub description : Text
  pub enum : List Text
  pub default_value : Json
  pub required : Bool

abbrev pub plain_field : Text → Text → Text → Text → List Text → Bool → ElicitField
plain_field name type title description options required = record {
  name = name;
  type = type;
  title = title;
  description = description;
  enum = options;
  default_value = null;
  required = required;
}

-- Schema.Add
abbrev pub add_field : ElicitField → List ElicitField → List ElicitField
add_field f fields = fields ++ f ∷ []

abbrev pub string_field : Text → Text → Text → Bool → List ElicitField → List ElicitField
string_field name title description required =
    add_field (plain_field name (txt "string") title description [] required)

abbrev pub number_field : Text → Text → Text → Bool → List ElicitField → List ElicitField
number_field name title description required =
    add_field (plain_field name (txt "number") title description [] required)

abbrev pub integer_field : Text → Text → Text → Bool → List ElicitField → List ElicitField
integer_field name title description required =
    add_field (plain_field name (txt "integer") title description [] required)

abbrev pub boolean_field : Text → Text → Text → Bool → List ElicitField → List ElicitField
boolean_field name title description required =
    add_field (plain_field name (txt "boolean") title description [] required)

abbrev pub enum_field : Text → Text → Text → Bool → List Text → List ElicitField → List ElicitField
enum_field name title description required options =
    add_field (plain_field name (txt "string") title description options required)

-- a []string as a JSON array
abbrev pub text_items : List Text → Items
text_items [] = no_items
text_items (s ∷ ss) = item_then (string s) (text_items ss)

abbrev pub member_if : Bool → Text → Json → Members → Members
member_if present key v ms = if present then member_then key v ms else ms

abbrev pub has_default : Json → Bool
has_default null = false
has_default v = true

-- Field.property
unfoldable pub property : ElicitField → Members
property f = member_if (not (is_empty f.type)) (txt "type") (string f.type) (
    member_if (not (is_empty f.title)) (txt "title") (string f.title) (
      member_if (not (is_empty f.description)) (txt "description") (string f.description) (
        member_if (not (is_empty f.enum)) (txt "enum") (array (text_items f.enum))
          (member_if (has_default f.default_value) (txt "default") f.default_value no_members))))

abbrev pub required_names : List ElicitField → List Text
required_names [] = []
required_names (f ∷ fs) = if f.required then f.name ∷ required_names fs else required_names fs

module _ (marshal : Json → Result Text) where
  abbrev pub followed : Text → Result Text → Result Text
  followed s (failed m) = failed m
  followed s (done t) = done (s ++ t)

  -- `"name":{...}`
  unfoldable pub member_text : ElicitField → Result Text
  unfolding property
  member_text f = elim (marshal (string f.name)) [
    | failed m ↦ failed m
    | done key ↦ followed (key ++ txt ":") (marshal (object (property f)))
  ]

  -- the loop of MarshalJSON after the first field
  unfoldable pub more_members : List ElicitField → Result Text
  unfolding member_text
  more_members [] = done []
  more_members (f ∷ fs) = elim (member_text f) [
    | failed m ↦ failed m
    | done t ↦ followed (txt "," ++ t) (more_members fs)
  ]

  unfoldable pub members_text : List ElicitField → Result Text
  unfolding more_members
  members_text [] = done []
  members_text (f ∷ fs) = elim (member_text f) [
    | failed m ↦ failed m
    | done t ↦ followed t (more_members fs)
  ]

  unfoldable pub required_text : List Text → Result Text
  required_text [] = done []
  required_text (n ∷ ns) = followed (txt ",\"required\":") (marshal (array (text_items (n ∷ ns))))

  -- Schema.MarshalJSON
  unfoldable pub marshal_schema : List ElicitField → Result Text
  unfolding members_text required_text
  marshal_schema fields = elim (members_text fields) [
    | failed m ↦ failed m
    | done props ↦ elim (required_text (required_names fields)) [
      | failed m ↦ failed m
      | done req ↦
          done (
            txt "{\"type\":\"object\",\"properties\":{" ++ (props ++ (txt "}" ++ (req ++ txt "}"))))
    ]
  ]

-- the type of a field, by its kind
