-- ===== src/Server/Registry.antt =====
-- The registries of server.go, tool.go, resource.go, prompt.go: order lists and maps agree, after any
-- registrations.
pub mod History
use fastmcp.Prelude.{
  Text, text_eq, text_eq_iff, text_eq_refl, Bool, true, false, ◌||◌, List, [], ◌∷◌, ◌++◌, Option,
  none, some, Bool-cases, Option-cases, ◌≡◌, refl, inl, inr, arith, if◌then◌else◌, is_some,
}
use fastmcp.Prelude.Dict.{Dict, get, put, has, get-put}
use fastmcp.Rpc.{Value, Fields, PromptArgument, PromptMessage}
use fastmcp.Server.{
  Server, Context, Handler, Reader, ToolEntry, PromptEntry, TemplateEntry, CompletionFunc, ordered,
  new, register_tool, resource, resource_template, prompt, complete_prompt,
  complete_resource_template, apply_options,
}

unfoldable pub mem_text : Text → List Text → Bool
mem_text k [] = false
mem_text k (j ∷ js) = text_eq j k || mem_text k js

abbrev pub IsNodup : List Text → Type 0
IsNodup [] = Unit
IsNodup (k ∷ ks) = (mem_text k ks ≡ false) × IsNodup ks

pub mem_text-append :
    (k : Text) (xs ys : List Text) → mem_text k (xs ++ ys) ≡ (mem_text k xs || mem_text k ys)
unfolding mem_text
mem_text-append k [] ys = refl
mem_text-append k (x ∷ xs) ys = ground (arith, mem_text-append k xs ys)

IsNodup-append :
    (k : Text) (xs : List Text) → mem_text k xs ≡ false → IsNodup xs → IsNodup (xs ++ k ∷ [])
unfolding mem_text
IsNodup-append k [] h d = (refl, tt)
IsNodup-append k (x ∷ xs) h d = (
  rw (mem_text-append x xs (k ∷ [])) (ground (arith, text_eq_iff x k, text_eq_iff k x)),
  IsNodup-append k xs (ground arith) d.1,
)

-- A map and the list of its keys in the order of their first registration.
pub record IsIndexed {ℓ} {V : Type ℓ} (m : Dict V) (order : List Text) : Type ℓ where
  pub listed : (k : Text) → mem_text k order ≡ has k m
  pub distinct : IsNodup order

module _ {V : Type 0} where
  pub IsIndexed-empty : IsIndexed {V = V} [] []
  unfolding mem_text get
  IsIndexed-empty = record { listed = λ k. refl; distinct = tt }

  listed-put :
      (m : Dict V) (order : List Text) (j k : Text) (v : V)
      → mem_text k order ≡ has k m
      → mem_text j order ≡ has j m
      → mem_text k (ordered j m order) ≡ has k (put j v m)
  unfolding mem_text
  listed-put m order j k v h hj =
      ground (arith, get-put j k v m, text_eq_iff j k, mem_text-append k order (j ∷ []))

  distinct-put :
      (m : Dict V) (order : List Text) (j : Text)
      → mem_text j order ≡ has j m
      → IsNodup order
      → IsNodup (ordered j m order)
  distinct-put m order j h d = elim (Bool-cases (has j m)) [
    | inl old ↦ rw old d
    | inr fresh ↦ rw fresh (IsNodup-append j order (rw (← fresh) h) d)
  ]

  pub IsIndexed-put :
      (m : Dict V) (order : List Text) (j : Text) (v : V)
      → IsIndexed m order
      → IsIndexed (put j v m) (ordered j m order)
  IsIndexed-put m order j v h = record {
    listed = λ k. listed-put m order j k v (h.listed k) (h.listed j);
    distinct = distinct-put m order j (h.listed j) h.distinct;
  }

  -- a value put anew at a key that is there
  pub IsIndexed-replace :
      (m : Dict V) (order : List Text) (j : Text) (v w : V)
      → get j m ≡ some w
      → IsIndexed m order
      → IsIndexed (put j v m) order
  IsIndexed-replace m order j v w e h = record {
    listed = λ k. ground (arith, h.listed k, get-put j k v m, text_eq_iff j k);
    distinct = h.distinct;
  }

pub record IsWellFormed {W : Type 0} (s : Server W) : Type 0 where
  pub tools : IsIndexed s.tools s.tool_order
  pub resources : IsIndexed s.resources s.resource_order
  pub prompts : IsIndexed s.prompts s.prompt_order

-- The calls that register. What reflection makes of a tool's function is given.
pub data Registration (W : Type 0) : Type 0 where
  tool :
      Text
      → Text
      → Fields
      → Option Fields
      → Bool
      → (Context → Text → Handler W Value)
      → Registration W
  static : Text → Text → Text → Text → Reader W (Unit {0}) → Registration W
  template : Text → Text → Text → Text → Reader W (Dict Text) → Registration W
  prompt_template :
      Text
      → Text
      → (Context → Dict Text → Handler W (List PromptMessage))
      → List PromptArgument
      → Registration W
  complete : Text → CompletionFunc W → Registration W
  complete_template : Text → CompletionFunc W → Registration W

module _ {W : Type 0} where
  abbrev pub tool_entry :
      Text → Text → Fields → Option Fields → Bool → (Context → Text → Handler W Value) → ToolEntry W
  tool_entry name description schema output structured call = record {
    name = name;
    description = description;
    input_schema = schema;
    output_schema = output;
    structured = structured;
    call = call;
  }

  -- one call; `Tool` and `ToolWithOutput` register under the name that they build the entry with
  unfoldable pub register : Registration W → Server W → Server W
  unfolding register_tool resource resource_template prompt complete_prompt
      complete_resource_template
  register (tool name description schema output structured call) s =
      register_tool name (tool_entry name description schema output structured call) s
  register (static uri name description mime_type reader) s =
      resource uri name description mime_type reader s
  register (template tmpl name description mime_type reader) s =
      resource_template tmpl name description mime_type reader s
  register (prompt_template name description handler args) s =
      prompt name description handler args s
  register (complete name fn) s = complete_prompt name fn s
  register (complete_template tmpl fn) s = complete_resource_template tmpl fn s

  pub tools-complete_prompt :
      (name : Text) (fn : CompletionFunc W) (s : Server W)
      → (complete_prompt name fn s).tools ≡ s.tools
  unfolding complete_prompt
  tools-complete_prompt name fn s = elim (Option-cases (get name s.prompts)) [
    | inl e ↦ rw (e, complete_prompt)
    | inr (p, e) ↦ rw (e, complete_prompt)
  ]

  pub tool_order-complete_prompt :
      (name : Text) (fn : CompletionFunc W) (s : Server W)
      → (complete_prompt name fn s).tool_order ≡ s.tool_order
  unfolding complete_prompt
  tool_order-complete_prompt name fn s = elim (Option-cases (get name s.prompts)) [
    | inl e ↦ rw (e, complete_prompt)
    | inr (p, e) ↦ rw (e, complete_prompt)
  ]

  unfoldable pub register_all : List (Registration W) → Server W → Server W
  unfolding register
  register_all [] s = s
  register_all (r ∷ rs) s = register_all rs (register r s)

  -- Each registration keeps the maps and the order lists in step.
  pub register-IsWellFormed :
      (r : Registration W) (s : Server W) → IsWellFormed s → IsWellFormed (register r s)
  unfolding register
  register-IsWellFormed (tool name d sc o st call) s h = record {
    tools = IsIndexed-put s.tools s.tool_order name _ h.tools;
    resources = h.resources;
    prompts = h.prompts;
  }
  register-IsWellFormed (static uri name d mt rd) s h = record {
    tools = h.tools;
    resources = IsIndexed-put s.resources s.resource_order uri _ h.resources;
    prompts = h.prompts;
  }
  register-IsWellFormed (template t name d mt rd) s h = record {
    tools = h.tools;
    resources = h.resources;
    prompts = h.prompts;
  }
  register-IsWellFormed (prompt_template name d hd args) s h = record {
    tools = h.tools;
    resources = h.resources;
    prompts = IsIndexed-put s.prompts s.prompt_order name _ h.prompts;
  }
  register-IsWellFormed (complete name fn) s h = elim (Option-cases (get name s.prompts)) [
    | inl e ↦ rw (e, complete_prompt) h
    | inr (p, e) ↦
        rw (e, complete_prompt)
          (record {
            tools = h.tools;
            resources = h.resources;
            prompts = IsIndexed-replace s.prompts s.prompt_order name _ p e h.prompts;
          })
  ]
  register-IsWellFormed (complete_template t fn) s h = record {
    tools = h.tools;
    resources = h.resources;
    prompts = h.prompts;
  }

  pub register_all-IsWellFormed :
      (rs : List (Registration W)) (s : Server W)
      → IsWellFormed s
      → IsWellFormed (register_all rs s)
  unfolding register_all
  register_all-IsWellFormed [] s h = h
  register_all-IsWellFormed (r ∷ rs) s h =
      register_all-IsWellFormed rs (register r s) (register-IsWellFormed r s h)

  pub new-IsWellFormed : (name : Text) → IsWellFormed (new {W = W} name [])
  unfolding new
  new-IsWellFormed name = record {
    tools = IsIndexed-empty;
    resources = IsIndexed-empty;
    prompts = IsIndexed-empty;
  }
