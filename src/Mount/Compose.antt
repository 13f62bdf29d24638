-- ===== src/Mount/Compose.antt =====
-- mount/mount.go: the composition. A child's state is a part of the parent's world. Building a tool from a
-- function of a map, and whether two servers are the same, are given.
pub mod Collisions
pub mod Tools
pub mod Templates
use fastmcp.Prelude.{
  Text, txt, is_empty, Bool, true, false, ◌||◌, List, [], ◌∷◌, ◌++◌, map, Option, none, some,
  Result, done, failed, Outcome, ok, err, panic, Exec, Slot, within, continue, pure, raise, ◌>>=◌,
  ◌>>◌, if◌then◌else◌, text_eq,
}
use fastmcp.Prelude.Dict.{Dict}
use fastmcp.Rpc.{Value, str, Fields, end, field}
use fastmcp.Session.{World}
use fastmcp.Server.{
  Server, Context, Handler, ToolEntry, text_handler, register_tool, resource, resource_template,
  prompt,
}
use fastmcp.Server.Codec.{Codec}
use fastmcp.Server.Registry.{tool_entry}
use fastmcp.Http.{HttpCodec}
use fastmcp.Mount.{
  MountConfig, CollisionPolicy, effective_separator, prefix_name, prefix_uri, expand_template,
  resolve,
}
use fastmcp.Mount.Delegate.{
  Wire, ToolInfo, ResourceInfo, PromptInfo, list_tools, list_resources, list_templates,
  list_prompts, call_tool, read_resource, get_prompt,
}

pub record NameSets : Type 0 where
  pub tools : List Text
  pub resources : List Text
  pub templates : List Text
  pub prompts : List Text

pub record Mounted : Type 0 where
  pub prefix : Text
  pub live : Bool
  pub tools : List Text
  pub resources : List Text
  pub resource_templates : List Text
  pub prompts : List Text

-- what a composition changes, and the world that its requests run in
pub record Composing (W : Type 0) : Type 0 where
  pub parent : Server W
  pub taken : NameSets
  pub rec : Mounted
  pub world : World W

-- the schema of a tool that takes a map
abbrev pub object_schema : Fields
object_schema = field (txt "type") (str (txt "object")) end

-- a loop that stops at an error
unfoldable pub for_each :
    {I S : Type 0} → (I → Exec S Text (Unit {0})) → List I → Exec S Text (Unit {0})
for_each f [] = pure tt
for_each f (x ∷ xs) = f x >> for_each f xs

module _ {W : Type 0} where
  abbrev pub in_world : {A : Type 0} → Exec (World W) Text A → Exec (Composing W) Text A
  in_world act st = let (r, w) = act st.world in (r, record st { world = w })

  -- the calls of a handler that `Tool` builds of a function of a map: raw arguments that are missing or
  -- null are the nil map
  abbrev pub on_arguments : (Option Fields → Handler W Value) → Result Fields → Handler W Value
  on_arguments f (failed m) = raise (txt "invalid arguments: " ++ m)
  on_arguments f (done args) = f (some args)

  abbrev pub map_call : Wire → (Option Fields → Handler W Value) → Context → Text → Handler W Value
  map_call wire f c raw =
      if is_empty raw || text_eq raw (txt "null")
      then f none
      else on_arguments f (wire.arguments_json raw)

module _ {W : Type 0} (lib : Codec) (json : HttpCodec) (wire : Wire) where
  -- existingNames: what the parent lists
  unfoldable pub existing_names : Server W → Exec (World W) Text NameSets
  unfolding list_tools list_resources list_templates list_prompts
  existing_names parent = do
    tools ← list_tools lib json wire parent
    resources ← list_resources lib json wire parent
    templates ← list_templates lib json wire parent
    prompts ← list_prompts lib json wire parent
    pure (record {
      tools = map (λ t. t.name) tools;
      resources = map (λ r. r.uri) resources;
      templates = map (λ t. t.uri) templates;
      prompts = map (λ p. p.name) prompts;
    })

module _ {W V : Type 0} (lib : Codec) (json : HttpCodec) (wire : Wire) (child : Server V)
    (slot : Slot (World W) (World V)) (prefix : Text) (cfg : MountConfig) where
  -- what a registration decided on
  abbrev pub proceed :
      Result Bool → Composing W → Composing W → Outcome Text (Unit {0}) × Composing W
  proceed (failed m) new old = (err m, old)
  proceed (done false) new old = (ok tt, old)
  proceed (done true) new old = (ok tt, new)

  -- the entry of a delegating tool
  unfoldable pub delegating_tool : Text → ToolInfo → ToolEntry W
  unfolding call_tool
  delegating_tool name info =
      tool_entry name info.description object_schema none false
        (map_call wire (λ args. within slot (call_tool lib json wire child info.name args)))

  unfoldable pub compose_tool : ToolInfo → Exec (Composing W) Text (Unit {0})
  unfolding delegating_tool prefix_name resolve register_tool
  compose_tool info st =
      let name = prefix_name prefix info.name (effective_separator cfg) in
      let (decision, set) = resolve st.taken.tools name (txt "tool") cfg.on_collision in
      proceed decision
        (record st {
          parent = register_tool name (delegating_tool name info) st.parent;
          taken = record (st.taken) { tools = set };
          rec = record (st.rec) { tools = st.rec.tools ++ name ∷ [] };
        })
        st

  unfoldable pub compose_resource : ResourceInfo → Exec (Composing W) Text (Unit {0})
  unfolding prefix_uri resolve resource read_resource
  compose_resource info st =
      let uri = prefix_uri info.uri prefix cfg.resource_style in
      let (decision, set) = resolve st.taken.resources uri (txt "resource") cfg.on_collision in
      proceed decision
        (record st {
          parent =
              resource uri info.name info.description info.mime_type
                (text_handler (λ c u. within slot (read_resource lib json wire child info.uri)))
                st.parent;
          taken = record (st.taken) { resources = set };
          rec = record (st.rec) { resources = st.rec.resources ++ uri ∷ [] };
        })
        st

  unfoldable pub compose_template : ResourceInfo → Exec (Composing W) Text (Unit {0})
  unfolding prefix_uri resolve resource_template read_resource expand_template
  compose_template info st =
      let tmpl = prefix_uri info.uri prefix cfg.resource_style in
      let (decision, set) =
        resolve st.taken.templates tmpl (txt "resource template") cfg.on_collision in
      proceed decision
        (record st {
          parent =
              resource_template tmpl info.name info.description info.mime_type
                (text_handler (λ c params.
                  within slot
                    (read_resource lib json wire child (expand_template info.uri params))))
                st.parent;
          taken = record (st.taken) { templates = set };
          rec = record (st.rec) { resource_templates = st.rec.resource_templates ++ tmpl ∷ [] };
        })
        st

  unfoldable pub compose_prompt : PromptInfo → Exec (Composing W) Text (Unit {0})
  unfolding prefix_name resolve prompt get_prompt
  compose_prompt info st =
      let name = prefix_name prefix info.name (effective_separator cfg) in
      let (decision, set) = resolve st.taken.prompts name (txt "prompt") cfg.on_collision in
      proceed decision
        (record st {
          parent =
              prompt name info.description
                (λ c args. within slot (get_prompt lib json wire child info.name args))
                info.arguments st.parent;
          taken = record (st.taken) { prompts = set };
          rec = record (st.rec) { prompts = st.rec.prompts ++ name ∷ [] };
        })
        st

  -- the list of the child's components, each composed
  abbrev pub compose_list :
      {I : Type 0}
      → Exec (World V) Text (List I)
      → (I → Exec (Composing W) Text (Unit {0}))
      → Exec (Composing W) Text (Unit {0})
  compose_list listing f = do infos ← in_world (within slot listing); for_each f infos

  unfoldable pub compose_tools : Exec (Composing W) Text (Unit {0})
  unfolding list_tools compose_tool for_each
  compose_tools = compose_list (list_tools lib json wire child) compose_tool

  unfoldable pub compose_resources : Exec (Composing W) Text (Unit {0})
  unfolding list_resources compose_resource for_each
  compose_resources = compose_list (list_resources lib json wire child) compose_resource

  unfoldable pub compose_templates : Exec (Composing W) Text (Unit {0})
  unfolding list_templates compose_template for_each
  compose_templates = compose_list (list_templates lib json wire child) compose_template

  unfoldable pub compose_prompts : Exec (Composing W) Text (Unit {0})
  unfolding list_prompts compose_prompt for_each
  compose_prompts = compose_list (list_prompts lib json wire child) compose_prompt

  abbrev pub if_included :
      Bool → Exec (Composing W) Text (Unit {0}) → Exec (Composing W) Text (Unit {0})
  if_included true f = f
  if_included false f = pure tt

  -- compose of two servers that are not nil, from the names that are taken
  unfoldable pub compose_all : Exec (Composing W) Text (Unit {0})
  unfolding compose_tools compose_resources compose_templates compose_prompts
  compose_all =
      if_included cfg.include_tools compose_tools
      >> if_included cfg.include_resources (compose_resources >> compose_templates)
      >> if_included cfg.include_prompts compose_prompts

  abbrev pub recorded :
      Outcome Text (Unit {0}) × Composing W → Outcome Text Mounted × (Server W × World W)
  recorded (ok u, st) = (ok st.rec, (st.parent, st.world))
  recorded (err m, st) = (err m, (st.parent, st.world))
  recorded (panic m, st) = (panic m, (st.parent, st.world))

  abbrev pub begin :
      Bool
      → Server W
      → Outcome Text NameSets
      → World W
      → Outcome Text Mounted × (Server W × World W)
  begin live parent (ok taken) w = recorded (
      compose_all (record {
        parent = parent;
        taken = taken;
        rec = record {
          prefix = prefix;
          live = live;
          tools = [];
          resources = [];
          resource_templates = [];
          prompts = [];
        };
        world = w;
      }))
  begin live parent (err m) w = (err m, (parent, w))
  begin live parent (panic m) w = (panic m, (parent, w))

  unfoldable pub compose :
      Bool → Bool → Server W → World W → Outcome Text Mounted × (Server W × World W)
  unfolding existing_names compose_all
  compose same live parent w =
      if is_empty prefix
      then (err (txt "mount: prefix must not be empty"), (parent, w))
      else if same
      then (err (txt "mount: cannot compose a server onto itself"), (parent, w))
      else (let (taken, w') = existing_names lib json wire parent w in begin live parent taken w')
