-- ===== src/Server/Registry/History.antt =====
-- tools/list against the history of registrations: what a client sees of any sequence of calls.
use fastmcp.Prelude.{
  Text, txt, text_eq, text_eq_iff, Bool, true, false, List, [], ◌∷◌, ◌++◌, Option, none, some, ok,
  ◌≡◌, refl, arith, ap, if◌then◌else◌, ◌∙◌, sym,
}
use mathlib.Core.Path.{fun_ext, ap₂}
use mathlib.Core.List.{append-nil, append_assoc}
use fastmcp.Prelude.Dict.{get, has, get-put}
use fastmcp.Rpc.{obj, arr, end, field}
use fastmcp.Server.{Server, ToolEntry, new}
use fastmcp.Server.Listing.{tool_info, handle_tools_list}
use fastmcp.Server.Listing.Laws.{values_by, Lists, Lists-well_formed}
use fastmcp.Server.Registry.{
  mem_text, mem_text-append, register-IsWellFormed, IsWellFormed, Registration, tool, complete,
  tool_entry, tools-complete_prompt, tool_order-complete_prompt, register, register_all,
  register_all-IsWellFormed, new-IsWellFormed,
}

-- The first occurrence of each name.
unfoldable pub without_text : Text → List Text → List Text
without_text k [] = []
without_text k (j ∷ js) = let rest = without_text k js in if text_eq j k then rest else j ∷ rest

unfoldable pub keep_first : List Text → List Text
unfolding without_text
keep_first [] = []
keep_first (k ∷ ks) = k ∷ without_text k (keep_first ks)

abbrev pub or_else {ℓ} : {A : Type ℓ} → Option A → Option A → Option A
or_else none b = b
or_else (some a) b = some a

module _ {W : Type 0} where
  unfoldable pub tool_names : List (Registration W) → List Text
  tool_names [] = []
  tool_names (tool name d sc o st call ∷ rs) = name ∷ tool_names rs
  tool_names (_ ∷ rs) = tool_names rs

  -- the entry that the last registration of a name built
  unfoldable pub latest_tool : List (Registration W) → Text → Option (ToolEntry W)
  latest_tool [] k = none
  latest_tool (tool name d sc o st call ∷ rs) k =
      or_else (latest_tool rs k)
        (if text_eq name k then some (tool_entry name d sc o st call) else none)
  latest_tool (_ ∷ rs) k = latest_tool rs k

-- the names of ks that are not in acc
filter_new : List Text → List Text → List Text
filter_new acc [] = []
filter_new acc (k ∷ ks) = let rest = filter_new acc ks in if mem_text k acc then rest else k ∷ rest

filter_new-without_text :
    (acc : List Text) (k : Text) (xs : List Text)
    → mem_text k acc ≡ true
    → filter_new acc (without_text k xs) ≡ filter_new acc xs
unfolding filter_new without_text
filter_new-without_text acc k [] h = refl
filter_new-without_text acc k (x ∷ xs) h =
    ground (arith, text_eq_iff x k, filter_new-without_text acc k xs h)

mem_text_one : (x k : Text) → mem_text x (k ∷ []) ≡ text_eq k x
unfolding mem_text
mem_text_one x k = ground arith

filter_new-append :
    (acc : List Text) (k : Text) (xs : List Text)
    → filter_new (acc ++ k ∷ []) xs ≡ filter_new acc (without_text k xs)
unfolding filter_new without_text
filter_new-append acc k [] = refl
filter_new-append acc k (x ∷ xs) = ground (
  arith,
  text_eq_iff x k,
  text_eq_iff k x,
  mem_text-append x acc (k ∷ []),
  mem_text_one x k,
  filter_new-append acc k xs,
)

filter_new-nil : (xs : List Text) → filter_new [] xs ≡ xs
unfolding filter_new mem_text
filter_new-nil [] = refl
filter_new-nil (x ∷ xs) = rw (filter_new-nil xs)

or_else_if :
    {A : Type 0} (l : Option A) (b : Bool) (a : A) (m : Option A)
    → or_else l (if b then some a else m) ≡ or_else (or_else l (if b then some a else none)) m
or_else_if none true a m = refl
or_else_if none false a m = refl
or_else_if (some x) b a m = refl

or_else-none : {A : Type 0} (a : Option A) → or_else a none ≡ a
or_else-none none = refl
or_else-none (some x) = refl

order_step :
    (acc : List Text) (k : Text) (known : Bool) (xs : List Text)
    → mem_text k acc ≡ known
    → (if known then acc else acc ++ k ∷ []) ++ filter_new (if known then acc else acc ++ k ∷ []) xs
      ≡ acc ++ filter_new acc (k ∷ without_text k xs)
unfolding filter_new
order_step acc k true xs h = rw (h, filter_new-without_text acc k xs h)
order_step acc k false xs h = rw h (rw (filter_new-append acc k xs) (append_assoc acc (k ∷ []) _))

module _ {W : Type 0} where
  get-register_all :
      (rs : List (Registration W)) (s : Server W) (k : Text)
      → get k (register_all rs s).tools ≡ or_else (latest_tool rs k) (get k s.tools)
  unfolding register_all latest_tool
  get-register_all [] s k = refl
  get-register_all (tool name d sc o st call ∷ rs) s k =
      get-register_all rs (register (tool name d sc o st call) s) k
      ∙ ap (or_else (latest_tool rs k)) (get-put name k (tool_entry name d sc o st call) s.tools)
      ∙ or_else_if (latest_tool rs k) (text_eq name k) (tool_entry name d sc o st call)
          (get k s.tools)
  get-register_all (complete name fn ∷ rs) s k =
      get-register_all rs (register (complete name fn) s) k
      ∙ ap (λ m. or_else (latest_tool rs k) (get k m)) (tools-complete_prompt name fn s)
  get-register_all (r ∷ rs) s k = get-register_all rs (register r s) k

  order-register_all :
      (rs : List (Registration W)) (s : Server W)
      → IsWellFormed s
      → (register_all rs s).tool_order
        ≡ s.tool_order ++ filter_new s.tool_order (keep_first (tool_names rs))
  unfolding register_all tool_names keep_first
  order-register_all [] s h = unfold filter_new in sym (append-nil s.tool_order)
  order-register_all (tool name d sc o st call ∷ rs) s h =
      order-register_all rs (register (tool name d sc o st call) s)
        (register-IsWellFormed (tool name d sc o st call) s h)
      ∙ order_step s.tool_order name (has name s.tools) (keep_first (tool_names rs))
          (h.tools.listed name)
  order-register_all (complete name fn ∷ rs) s h =
      order-register_all rs (register (complete name fn) s)
        (register-IsWellFormed (complete name fn) s h)
      ∙ ap (λ o. o ++ filter_new o (keep_first (tool_names rs)))
          (tool_order-complete_prompt name fn s)
  order-register_all (r ∷ rs) s h =
      order-register_all rs (register r s) (register-IsWellFormed r s h)

  get_history :
      (name : Text) (rs : List (Registration W)) (k : Text)
      → get k (register_all rs (new name [])).tools ≡ latest_tool rs k
  unfolding new get
  get_history name rs k = get-register_all rs (new name []) k ∙ or_else-none (latest_tool rs k)

  order_history :
      (name : Text) (rs : List (Registration W))
      → (register_all rs (new name [])).tool_order ≡ keep_first (tool_names rs)
  unfolding new
  order_history name rs =
      order-register_all rs (new name []) (new-IsWellFormed name)
      ∙ filter_new-nil (keep_first (tool_names rs))

  -- After any registrations on a new server, tools/list succeeds and lists each registered tool
  -- name once, in the order of the first registrations, with the entry of its last registration.
  pub tools_list_history :
      (name : Text) (rs : List (Registration W))
      → Lists
          (handle_tools_list (register_all rs (new name [])))
          (txt "tools")
          (values_by tool_info (latest_tool rs) (keep_first (tool_names rs)))
  tools_list_history name rs =
      let ok_all = register_all-IsWellFormed rs (new {W = W} name []) (new-IsWellFormed name) in
      (Lists-well_formed (register_all rs (new {W = W} name [])) ok_all).0
      ∙ ap₂
          (λ (at : Text → Option (ToolEntry W)) (o : List Text).
            ok (obj (field (txt "tools") (arr (values_by tool_info at o)) end)))
          (fun_ext (λ k. get_history name rs k)) (order_history name rs)
