-- ===== src/JsonSchema/Unused.antt =====
-- jsonschema/transform.go: the removal of the definitions that nothing refers to. A set of names is a list
-- of them; a round follows the names that were in the set when it began.
pub mod Refers
pub mod Marks
pub mod Rounds
pub mod Kept
use fastmcp.Prelude.{
  ℕ, zero, suc, Text, txt, text_eq, length, Bool, true, false, ◌==◌, List, [], ◌∷◌, Option, none,
  some, if◌then◌else◌,
}
use fastmcp.Json.{
  Json, null, boolean, number, string, array, object, Items, no_items, item_then, Members,
  no_members, member_then,
}
use fastmcp.JsonSchema.{find, remove, write_member, as_text, as_map, def_name}

-- `used[name]`
unfoldable pub is_used : List Text → Text → Bool
is_used [] name = false
is_used (n ∷ used) name = if text_eq n name then true else is_used used name

-- `used[name] = true`
abbrev pub use_name : Text → List Text → List Text
use_name name used = if is_used used name then used else name ∷ used

abbrev pub local_name : Option Text → Option Text
local_name none = none
local_name (some ref) = def_name ref

-- the definition that an object itself refers to
unfoldable pub own_name : Members → Option Text
unfolding find def_name
own_name ms = local_name (as_text (find (txt "$ref") ms))

unfoldable pub use_own : Option Text → List Text → List Text
unfolding is_used
use_own none used = used
use_own (some name) used = use_name name used

-- collectDefRefs
unfoldable mutual
  unfolding own_name use_own

  pub collect_def_refs : Json → List Text → List Text
  collect_def_refs (object ms) used = collect_members ms (use_own (own_name ms) used)
  collect_def_refs (array vs) used = collect_items vs used
  collect_def_refs null used = used
  collect_def_refs (boolean b) used = used
  collect_def_refs (number n) used = used
  collect_def_refs (string s) used = used

  pub collect_members : Members → List Text → List Text
  collect_members no_members used = used
  collect_members (member_then k v ms) used = collect_members ms (collect_def_refs v used)

  pub collect_items : Items → List Text → List Text
  collect_items no_items used = used
  collect_items (item_then v vs) used = collect_items vs (collect_def_refs v used)

-- the references of the document's values, that of `$defs` left out
unfoldable pub seed : Members → List Text → List Text
unfolding collect_def_refs
seed no_members used = used
seed (member_then k v ms) used =
    seed ms (if text_eq k (txt "$defs") then used else collect_def_refs v used)

-- the references of one definition, of those with the names, and of the set's own names
unfoldable pub follow_one : Members → Text → List Text → List Text
unfolding find collect_def_refs
follow_one defs name used = elim (find name defs) [ none ↦ used | some v ↦ collect_def_refs v used ]

unfoldable pub follow : Members → List Text → List Text → List Text
unfolding follow_one
follow defs [] used = used
follow defs (name ∷ names) used = follow defs names (follow_one defs name used)

abbrev pub follow_round : Members → List Text → List Text
follow_round defs used = follow defs used used

-- the loop of the rounds, on fuel
unfoldable pub rounds : ℕ → Members → List Text → List Text
unfolding follow
rounds zero defs used = used
rounds (suc n) defs used =
    let rest = rounds n defs (follow_round defs used) in
    if length (follow_round defs used) == length used then follow_round defs used else rest

-- the fuel, one more than the names that the document and its definitions can refer to
unfoldable pub enough_rounds : Members → Members → ℕ
unfolding seed
enough_rounds node defs = suc (length (collect_members defs (seed node [])))

unfoldable pub reached : Members → Members → List Text
unfolding enough_rounds rounds
reached node defs = rounds (enough_rounds node defs) defs (seed node [])

unfoldable pub keep_used : List Text → Members → Members
unfolding is_used
keep_used used no_members = no_members
keep_used used (member_then k v defs) =
    let rest = keep_used used defs in if is_used used k then member_then k v rest else rest

abbrev pub write_defs : Members → Members → Members
write_defs no_members node = remove (txt "$defs") node
write_defs (member_then k v defs) node =
    write_member (txt "$defs") (object (member_then k v defs)) node

-- pruneUnusedDefs
unfoldable pub prune_unused_defs : Members → Members
unfolding reached keep_used remove write_member
prune_unused_defs node = elim (as_map (find (txt "$defs") node)) [
  | none ↦ node
  | some defs ↦ write_defs (keep_used (reached node defs) defs) node
]
