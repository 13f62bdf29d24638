-- ===== src/Tests/References.antt =====
-- Runs of hasCircularDefRef and inlineDefs of jsonschema.
use fastmcp.Prelude.{Text, txt, text_eq, true, ◌≡◌, ◌↔◌, refl}
use fastmcp.Json.{string, object, Members, no_members, member_then}
use fastmcp.JsonSchema.Dereference.{has_circular_def_ref, inline_defs}
use fastmcp.JsonSchema.Dereference.Chains.{Chain}
use fastmcp.JsonSchema.Dereference.Cycles.{has_circular_def_ref_iff}
use fastmcp.JsonSchema.Dereference.Reference.{Inlines}
use fastmcp.JsonSchema.Dereference.Flat.{IsFlat, inline_defs-Inlines}
use fastmcp.Tests.Schemas.{looped, refers_to}

-- a refers to b, with a title of its own
abbrev nested : Members
nested =
    member_then (txt "a")
      (object (
        member_then (txt "$ref") (string (txt "#/$defs/b"))
          (member_then (txt "title") (string (txt "A")) no_members)))
      (member_then (txt "b")
        (object (
          member_then (txt "type") (string (txt "string"))
            (member_then (txt "title") (string (txt "B")) no_members)))
        no_members)

-- the title next to the reference wins, and what is inlined is inlined itself
inlined_twice :
    inline_defs nested (object (member_then (txt "items") (refers_to (txt "#/$defs/a")) no_members))
    ≡ object (
        member_then
          (txt "items")
          (object (
            member_then
              (txt "type")
              (string (txt "string"))
              (member_then (txt "title") (string (txt "A")) no_members)))
          no_members)
unfolding inline_defs text_eq
inlined_twice = refl

loop_found : has_circular_def_ref looped ≡ true
unfolding has_circular_def_ref text_eq
loop_found = refl

has_circular_def_ref_iff_example :
    (has_circular_def_ref looped ≡ true) ↔ ((name : Text) × Chain looped name name)
has_circular_def_ref_iff_example = has_circular_def_ref_iff looped

inline_defs-Inlines_example :
    Inlines nested (refers_to (txt "#/$defs/a")) (inline_defs nested (refers_to (txt "#/$defs/a")))
    × IsFlat nested (inline_defs nested (refers_to (txt "#/$defs/a")))
unfolding has_circular_def_ref text_eq
inline_defs-Inlines_example = inline_defs-Inlines nested (refers_to (txt "#/$defs/a")) refl
