-- ===== src/JsonSchema/Dereference.antt =====
-- jsonschema/refs.go: the search for cycles among the definitions, and the inlining of references. The map of
-- the names that were seen is a list, passed on from call to call, and so is that of the active ones.
pub mod Chains
pub mod Cycles
pub mod Inlined
pub mod Reference
pub mod Flat
use fastmcp.Prelude.{
  ℕ, zero, suc, Text, txt, text_eq, length, Bool, true, false, not, ◌&&◌, List, [], ◌∷◌, Option,
  none, some, if◌then◌else◌,
}
use fastmcp.Json.{
  Json, null, boolean, number, string, array, object, Items, no_items, item_then, Members,
  no_members, member_then,
}
use fastmcp.JsonSchema.{find, as_map, write_member, members_of}
use fastmcp.JsonSchema.Unused.{is_used, own_name, follow_one, collect_members}

module _ (start : Text) (go : Text → List Text → Bool × List Text) where
  -- the loop over the references of a definition
  unfoldable pub search_each : List Text → List Text → Bool × List Text
  search_each [] seen = (false, seen)
  search_each (next ∷ names) seen = elim (text_eq next start) [
    | true ↦ (true, seen)
    | false ↦ elim (go next seen).0 [
      | true ↦ go next seen
      | false ↦ search_each names (go next seen).1
    ]
  ]

module _ (defs : Members) (start : Text) where
  -- the body of defReaches, for its recursive call
  unfoldable pub search_step :
      (Text → List Text → Bool × List Text) → Text → Bool → List Text → Bool × List Text
  unfolding is_used search_each follow_one
  search_step go cur first seen = elim (not first && text_eq cur start) [
    | true ↦ (true, seen)
    | false ↦ elim (is_used seen cur) [
      | true ↦ (false, seen)
      | false ↦ search_each start go (follow_one defs cur []) (cur ∷ seen)
    ]
  ]

  -- defReaches, on fuel
  unfoldable pub def_reaches : ℕ → Text → Bool → List Text → Bool × List Text
  unfolding search_step
  def_reaches zero cur first seen = (false, seen)
  def_reaches (suc n) cur first seen =
      search_step (λ next later. def_reaches n next false later) cur first seen

-- one more than the names that can be met
unfoldable pub enough_steps : Members → ℕ
unfolding collect_members
enough_steps defs = suc (suc (length (collect_members defs [])))

unfoldable pub circular_among : Members → Members → Bool
unfolding def_reaches enough_steps
circular_among defs no_members = false
circular_among defs (member_then name v rest) =
    let later = circular_among defs rest in
    if (def_reaches defs name (enough_steps defs) name true []).0 then true else later

-- hasCircularDefRef
unfoldable pub has_circular_def_ref : Members → Bool
unfolding circular_among
has_circular_def_ref defs = circular_among defs defs

-- the definition that an object's own reference stands for, with its name, unless it is being inlined
unfoldable pub target_of : Members → List Text → Members → Option (Text × Members)
unfolding own_name is_used find
target_of defs active ms = elim (own_name ms) [
  | none ↦ none
  | some name ↦ elim (is_used active name) [
    | true ↦ none
    | false ↦ elim (as_map (find name defs)) [ none ↦ none | some target ↦ some (name, target) ]
  ]
]

-- the members next to a reference over those of the definition
unfoldable pub write_siblings : Members → Members → Members
unfolding write_member
write_siblings no_members resolved = resolved
write_siblings (member_then k v ms) resolved =
    let rest = write_siblings ms resolved in
    if text_eq k (txt "$ref") then rest else write_member k v rest

-- inlineDefs for the names that are active, and its call for a definition. A reference that is a string and
-- is not followed stays, as every string does.
module _ (defs : Members) (active : List Text) (into : Text → Members → Json) where
  -- the inlined members of an object, over its inlined target
  unfoldable pub over_target : Members → Option (Text × Members) → Members
  unfolding write_siblings
  over_target ms none = ms
  over_target ms (some (name, target)) = write_siblings ms (members_of (into name target))

  unfoldable mutual
    unfolding target_of over_target

    pub inline_step : Json → Json
    inline_step (object ms) = object (over_target (inline_members ms) (target_of defs active ms))
    inline_step (array vs) = array (inline_items vs)
    inline_step null = null
    inline_step (boolean b) = boolean b
    inline_step (number n) = number n
    inline_step (string s) = string s

    pub inline_members : Members → Members
    inline_members no_members = no_members
    inline_members (member_then k v ms) = member_then k (inline_step v) (inline_members ms)

    pub inline_items : Items → Items
    inline_items no_items = no_items
    inline_items (item_then v vs) = item_then (inline_step v) (inline_items vs)

unfoldable pub names_in : Members → List Text
names_in no_members = []
names_in (member_then k v ms) = k ∷ names_in ms

module _ (defs : Members) where
  unfoldable pub inline_to : ℕ → List Text → Json → Json
  unfolding inline_step
  inline_to zero active v = v
  inline_to (suc n) active v =
      inline_step defs active (λ name target. inline_to n (name ∷ active) (object target)) v

  -- inlineDefs at the start; one more call of it than definitions is never active
  unfoldable pub inline_defs : Json → Json
  unfolding inline_to names_in
  inline_defs v = inline_to (suc (length (names_in defs))) [] v
