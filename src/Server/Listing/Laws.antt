-- ===== src/Server/Listing/Laws.antt =====
-- The list methods of dispatch.go on a well-formed server: they list what is registered.
use fastmcp.Prelude.{
  Text, txt, text_eq_refl, true, All, List, [], ◌∷◌, Option, none, some, Outcome, ok, ◌≡◌, refl,
  arith,
}
use fastmcp.Prelude.Dict.{Dict, get, has}
use fastmcp.Rpc.{Value, obj, arr, Values, nil, item, end, field, Error}
use fastmcp.Server.{Server}
use fastmcp.Server.Listing.{
  collect, tool_info, resource_info, prompt_info, handle_tools_list, handle_resources_list,
  handle_prompts_list,
}
use fastmcp.Server.Registry.{mem_text, IsIndexed, IsWellFormed}

-- What a list shows of the values at the given names, in their order.
unfoldable pub values_by : {V : Type 0} → (V → Value) → (Text → Option V) → List Text → Values
values_by entry at [] = nil
values_by entry at (k ∷ ks) = elim (at k) [
  | none ↦ values_by entry at ks
  | some v ↦ item (entry v) (values_by entry at ks)
]

module _ {V : Type 0} where
  collect-eq-ok :
      (entry : V → Value) (m : Dict V) (order : List Text)
      → All (λ k. has k m ≡ true) order
      → collect entry m order ≡ ok (values_by entry (λ k. get k m) order)
  unfolding collect values_by
  collect-eq-ok entry m [] h = refl
  collect-eq-ok entry m (k ∷ ks) h = ground (arith, collect-eq-ok entry m ks h.1)

  All-has :
      (m : Dict V) (order ks : List Text)
      → ((k : Text) → mem_text k order ≡ has k m)
      → All (λ k. mem_text k order ≡ true) ks
      → All (λ k. has k m ≡ true) ks
  All-has m order [] h a = tt
  All-has m order (k ∷ ks) h a = (rw (← h k) a.0, All-has m order ks h a.1)

All-mem_text_weaken :
    (x : Text) (xs ks : List Text)
    → All (λ k. mem_text k xs ≡ true) ks
    → All (λ k. mem_text k (x ∷ xs) ≡ true) ks
unfolding mem_text
All-mem_text_weaken x xs [] h = tt
All-mem_text_weaken x xs (k ∷ ks) h = (ground (arith, h.0), All-mem_text_weaken x xs ks h.1)

All-mem_text : (order : List Text) → All (λ k. mem_text k order ≡ true) order
unfolding mem_text
All-mem_text [] = tt
All-mem_text (k ∷ ks) = (rw (text_eq_refl k) refl, All-mem_text_weaken k ks ks (All-mem_text ks))

pub collect_indexed :
    {V : Type 0} (entry : V → Value) (m : Dict V) (order : List Text)
    → IsIndexed m order
    → collect entry m order ≡ ok (values_by entry (λ k. get k m) order)
collect_indexed entry m order h =
    collect-eq-ok entry m order (All-has m order order h.listed (All-mem_text order))

-- A list method that succeeds with the given values under the given key.
abbrev pub Lists : Outcome Error Value → Text → Values → Type 0
Lists r key vs = r ≡ ok (obj (field key (arr vs) end))

-- On a well-formed server none of tools/list, resources/list and prompts/list panics: each lists
-- the entry of every name of its order list, in that order.
pub Lists-well_formed :
    {W : Type 0} (s : Server W)
    → IsWellFormed s
    → Lists
        (handle_tools_list s)
        (txt "tools")
        (values_by tool_info (λ k. get k s.tools) s.tool_order)
      × Lists
          (handle_resources_list s)
          (txt "resources")
          (values_by resource_info (λ k. get k s.resources) s.resource_order)
      × Lists
          (handle_prompts_list s)
          (txt "prompts")
          (values_by prompt_info (λ k. get k s.prompts) s.prompt_order)
unfolding handle_tools_list handle_resources_list handle_prompts_list
Lists-well_formed s h = (
  rw (collect_indexed tool_info s.tools s.tool_order h.tools),
  rw (collect_indexed resource_info s.resources s.resource_order h.resources),
  rw (collect_indexed prompt_info s.prompts s.prompt_order h.prompts),
)
