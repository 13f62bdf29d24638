-- ===== src/Tests/Schemas.antt =====
-- Runs of Validate, StripRemoteRefs and pruneUnusedDefs of jsonschema.
use fastmcp.Prelude.{
  Text, txt, text_eq, ltb, ◌==◌, ◌%◌, not, true, false, [], some, none, failed, length, ◌≡◌, refl,
  arith, if◌then◌else◌, ◌&&◌,
}
use fastmcp.Prelude.Int.{pos}
use fastmcp.Json.{
  Json, number, string, array, object, Members, no_items, item_then, no_members, member_then,
}
use fastmcp.JsonSchema.{texts_of, find, strip_remote_refs, refers_away}
use fastmcp.JsonSchema.Refs.{IsLocal, stripped, strip_remote_refs-IsLocal}
use fastmcp.JsonSchema.Unused.{own_name, prune_unused_defs}
use fastmcp.JsonSchema.Unused.Kept.{IsReachable, defs_of, prune_unused_defs-kept}
use fastmcp.JsonSchema.Validate.{validate, validate_to}
use fastmcp.JsonSchema.Validate.Keywords.{SchemaLib, depth, missing_property, short_string}
use fastmcp.JsonSchema.Validate.Satisfies.{Satisfies}
use fastmcp.JsonSchema.Validate.Enough.{validate_enough}

-- a float is a natural number, and a string is one byte for each rune
abbrev small : SchemaLib
small = record {
  float_eq = λ a b. a == b;
  float_lt = λ a b. ltb a b;
  is_integer = λ f. true;
  to_int = λ f. pos f;
  is_off = λ f m. not (f % m == 0);
  deep_equal = λ v w. false;
  runes = λ s. length s;
  compile = λ p. failed (txt "no patterns");
  decimal = λ n. [];
}

abbrev person : Members
person = member_then (txt "type") (string (txt "object")) (
    member_then (txt "required") (array (item_then (string (txt "name")) no_items)) (
      member_then (txt "properties")
        (object (
          member_then (txt "name")
            (object (
              member_then (txt "type") (string (txt "string"))
                (member_then (txt "minLength") (number 2) no_members)))
            no_members))
        no_members))

abbrev ann : Members
ann = member_then (txt "name") (string (txt "ann")) no_members

short_name :
    validate small person (object (member_then (txt "name") (string (txt "a")) no_members))
    ≡ some (record { path = txt "/name"; message = short_string 1 (pos 2) })
unfolding validate text_eq depth texts_of
short_name = refl

no_name :
    validate small person (object no_members)
    ≡ some (record { path = []; message = missing_property (txt "name") })
unfolding validate text_eq depth texts_of
no_name = refl

validate_enough_example :
    validate_to small 7 person (object ann) [] ≡ validate small person (object ann)
unfolding depth
validate_enough_example = validate_enough small 7 person (object ann) (omega arith)

-- a reference to another document, beside a local one
abbrev foreign : Members
foreign = member_then (txt "$ref") (string (txt "http://x")) (
    member_then (txt "items")
      (object (member_then (txt "$ref") (string (txt "#/$defs/a")) no_members)) no_members)

strip_remote_refs-IsLocal_example :
    IsLocal (object (strip_remote_refs foreign))
    × (strip_remote_refs (strip_remote_refs foreign) ≡ strip_remote_refs foreign)
    × (find (txt "items") (strip_remote_refs foreign) ≡ (
        if refers_away foreign && text_eq (txt "$ref") (txt "items")
        then none
        else stripped (find (txt "items") foreign)))
strip_remote_refs-IsLocal_example = strip_remote_refs-IsLocal foreign (txt "items")

abbrev pub refers_to : Text → Json
refers_to ref = object (member_then (txt "$ref") (string ref) no_members)

-- a and b refer to each other, and nothing refers to c
abbrev pub looped : Members
looped = member_then (txt "a") (refers_to (txt "#/$defs/b")) (
    member_then (txt "b") (refers_to (txt "#/$defs/a"))
      (member_then (txt "c") (refers_to (txt "#/$defs/a")) no_members))

abbrev uses_loop : Members
uses_loop =
    member_then (txt "$defs") (object looped)
      (member_then (txt "items") (refers_to (txt "#/$defs/a")) no_members)

only_c_goes :
    prune_unused_defs uses_loop
    ≡ member_then
        (txt "$defs")
        (object (
          member_then
            (txt "a")
            (refers_to (txt "#/$defs/b"))
            (member_then (txt "b") (refers_to (txt "#/$defs/a")) no_members)))
        (member_then (txt "items") (refers_to (txt "#/$defs/a")) no_members)
unfolding prune_unused_defs text_eq
only_c_goes = refl

-- the reference of the root itself does not count
root_reference :
    prune_unused_defs (
      member_then
        (txt "$ref")
        (string (txt "#/$defs/a"))
        (member_then (txt "$defs") (object looped) no_members))
    ≡ member_then (txt "$ref") (string (txt "#/$defs/a")) no_members
unfolding prune_unused_defs text_eq
root_reference = refl

prune_unused_defs-kept_example :
    (IsReachable uses_loop (txt "b")
      → find (txt "b") (defs_of (prune_unused_defs uses_loop)) ≡ find (txt "b") (defs_of uses_loop))
    × (¬ IsReachable uses_loop (txt "b")
        → find (txt "b") (defs_of (prune_unused_defs uses_loop)) ≡ none)
    × ((k : Text)
        → text_eq (txt "$defs") k ≡ false
        → find k (prune_unused_defs uses_loop) ≡ find k uses_loop)
unfolding own_name text_eq
prune_unused_defs-kept_example = prune_unused_defs-kept uses_loop (txt "b") refl
