-- ===== src/JsonSchema.antt =====
-- jsonschema: decoded schemas, and what its files share. A Go map is a list of members whose keys are
-- distinct; the order of its iteration shows nowhere but in which of several errors is reported, and is
-- then that of the list. A []string that the code puts into a map is an array of strings.
pub mod Refs
pub mod Unused
pub mod Dereference
pub mod Validate
use fastmcp.Prelude.{
  Text, txt, text_eq, is_empty, has_prefix, drop, length, Bool, true, false, not, ◌++◌, List, [],
  ◌∷◌, Option, none, some, if◌then◌else◌,
}
use fastmcp.Json.{
  Json, null, boolean, number, string, array, object, Items, no_items, item_then, Members,
  no_members, member_then,
}

-- `v, ok := m[key]`
unfoldable pub find : Text → Members → Option Json
find k no_members = none
find k (member_then j v ms) = if text_eq j k then some v else find k ms

-- `delete(m, key)`
unfoldable pub remove : Text → Members → Members
remove k no_members = no_members
remove k (member_then j v ms) =
    let rest = remove k ms in if text_eq j k then rest else member_then j v rest

-- `m[key] = v`
unfoldable pub write_member : Text → Json → Members → Members
write_member k v no_members = member_then k v no_members
write_member k v (member_then j w ms) =
    if text_eq j k then member_then k v ms else member_then j w (write_member k v ms)

-- `m[key].(string)`, `m[key].(map[string]any)` and `m[key].([]any)`
abbrev pub as_text : Option Json → Option Text
as_text (some (string s)) = some s
as_text v = none

abbrev pub as_map : Option Json → Option Members
as_map (some (object ms)) = some ms
as_map v = none

abbrev pub as_array : Option Json → Option Items
as_array (some (array vs)) = some vs
as_array v = none

-- asStrings and asStringList
unfoldable pub texts_of : Items → List Text
texts_of no_items = []
texts_of (item_then (string s) vs) = s ∷ texts_of vs
texts_of (item_then v vs) = texts_of vs

abbrev pub as_strings : Option Json → List Text
as_strings (some (array vs)) = texts_of vs
as_strings v = []

-- isRemoteRef
unfoldable pub is_remote_ref : Text → Bool
is_remote_ref ref = if is_empty ref then false else not (has_prefix ref (txt "#"))

-- defName
unfoldable pub def_name : Text → Option Text
def_name ref =
    if has_prefix ref (txt "#/$defs/") then some (drop (length (txt "#/$defs/")) ref) else none

abbrev pub is_remote : Option Text → Bool
is_remote none = false
is_remote (some ref) = is_remote_ref ref

-- whether an object's own reference is remote
abbrev pub refers_away : Members → Bool
refers_away ms = is_remote (as_text (find (txt "$ref") ms))

-- stripRemote: the values are stripped before the reference is deleted, and not after, which makes no
-- difference, since a string stays as it is
unfoldable mutual
  pub strip_remote : Json → Json
  strip_remote (object ms) =
      object (if refers_away ms then remove (txt "$ref") (strip_members ms) else strip_members ms)
  strip_remote (array vs) = array (strip_items vs)
  strip_remote null = null
  strip_remote (boolean b) = boolean b
  strip_remote (number n) = number n
  strip_remote (string s) = string s

  pub strip_members : Members → Members
  strip_members no_members = no_members
  strip_members (member_then k v ms) = member_then k (strip_remote v) (strip_members ms)

  pub strip_items : Items → Items
  strip_items no_items = no_items
  strip_items (item_then v vs) = item_then (strip_remote v) (strip_items vs)

abbrev pub members_of : Json → Members
members_of (object ms) = ms
members_of v = no_members

-- StripRemoteRefs
unfoldable pub strip_remote_refs : Members → Members
unfolding strip_remote
strip_remote_refs schema = members_of (strip_remote (object schema))

-- the members of the definition over those of the schema
abbrev pub write_members : Members → Members → Members
write_members no_members ms = ms
write_members (member_then k v defs) ms = write_members defs (write_member k v ms)

abbrev pub resolve_named : Members → Members → Option Text → Members
resolve_named schema defs none = schema
resolve_named schema defs (some name) = elim (as_map (find name defs)) [
  | none ↦ schema
  | some target ↦ write_members target (remove (txt "$ref") schema)
]

-- ResolveRootRef
unfoldable pub resolve_root_ref : Members → Members
unfolding find remove write_member def_name
resolve_root_ref schema = elim (find (txt "type") schema) [
  | some t ↦ schema
  | none ↦ elim (as_text (find (txt "$ref") schema)) [
    | none ↦ schema
    | some ref ↦ elim (as_map (find (txt "$defs") schema)) [
      | none ↦ schema
      | some defs ↦ resolve_named schema defs (def_name ref)
    ]
  ]
]
