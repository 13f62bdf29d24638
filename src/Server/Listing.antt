-- ===== src/Server/Listing.antt =====
-- dispatch.go: initialize and the list methods, which read the registries and change nothing. A name
-- in an order list that its map lacks is a nil dereference, a panic.
pub mod Laws
use fastmcp.Prelude.{
  Text, txt, is_empty, Bool, true, false, ◌&&◌, ◌||◌, List, [], ◌∷◌, Option, none, some, Outcome,
  ok, err, panic, done, failed, if◌then◌else◌, text_eq, not,
}
use fastmcp.Prelude.Dict.{Dict, get}
use fastmcp.Rpc.{
  Value, bool, str, arr, obj, arguments, Values, nil, item, Fields, end, field, Error,
}
use fastmcp.Server.{Server, ToolEntry, ResourceEntry, TemplateEntry, PromptEntry, protocol_version}
use fastmcp.Server.Codec.{Codec}

abbrev pub nil_dereference : Text
nil_dereference = txt "invalid memory address or nil pointer dereference"

-- the negotiated version: the requested one, unless it is absent, malformed or empty
unfoldable pub negotiated : Codec → Text → Text
negotiated lib params =
    if is_empty params then protocol_version else elim (lib.initialize_params params) [
      | done v ↦ if is_empty v then protocol_version else v
      | failed e ↦ protocol_version
    ]

-- an entry that is there under a condition
abbrev pub field_if : Bool → Text → Value → Fields → Fields
field_if b k v fs = if b then field k v fs else fs

-- the loop over an order list: look the name up, and dereference the entry
unfoldable pub collect : {V : Type 0} → (V → Value) → Dict V → List Text → Outcome Error Values
collect entry m [] = ok nil
collect entry m (name ∷ order) = elim (get name m) [
  | none ↦ panic nil_dereference
  | some v ↦ elim (collect entry m order) [
    | ok vs ↦ ok (item (entry v) vs)
    | err e ↦ err e
    | panic p ↦ panic p
  ]
]

abbrev pub wrapped : Text → Outcome Error Values → Outcome Error Value
wrapped key (ok vs) = ok (obj (field key (arr vs) end))
wrapped key (err e) = err e
wrapped key (panic p) = panic p

abbrev pub output_field : Option Fields → Fields
output_field none = end
output_field (some schema) = field (txt "outputSchema") (obj schema) end

abbrev pub described : Text → Text → Text → Text → Text → Fields
described key uri name description mime_type = field key (str uri) (
    field (txt "name") (str name)
      (field (txt "description") (str description) (field (txt "mimeType") (str mime_type) end)))

module _ {W : Type 0} where
  unfoldable pub capabilities : Server W → Fields
  capabilities s = field (txt "logging") (obj end) (
      field (txt "completions") (obj end) (
        field_if (not (is_empty s.tools)) (txt "tools")
          (obj (field (txt "listChanged") (bool true) end))
          (field_if (not (is_empty s.resources) || not (is_empty s.templates)) (txt "resources")
            (obj (field (txt "listChanged") (bool true) (field (txt "subscribe") (bool true) end)))
            (field_if (not (is_empty s.prompts)) (txt "prompts")
              (obj (field (txt "listChanged") (bool true) end)) end))))

  unfoldable pub handle_initialize : Codec → Server W → Text → Value
  unfolding negotiated capabilities
  handle_initialize lib s params = obj (
      field (txt "protocolVersion") (str (negotiated lib params)) (
        field (txt "capabilities") (obj (capabilities s)) (
          field (txt "serverInfo")
            (obj (field (txt "name") (str s.name) (field (txt "version") (str s.version) end)))
            (field_if (not (is_empty s.instructions)) (txt "instructions") (str s.instructions)
              end))))

  unfoldable pub tool_info : ToolEntry W → Value
  tool_info t = obj (
      field (txt "name") (str t.name) (
        field (txt "description") (str t.description)
          (field (txt "inputSchema") (obj t.input_schema) (output_field t.output_schema))))

  unfoldable pub handle_tools_list : Server W → Outcome Error Value
  unfolding collect
  handle_tools_list s = wrapped (txt "tools") (collect tool_info s.tools s.tool_order)

  unfoldable pub resource_info : ResourceEntry W → Value
  resource_info r = obj (described (txt "uri") r.uri r.name r.description r.mime_type)

  unfoldable pub handle_resources_list : Server W → Outcome Error Value
  handle_resources_list s =
      wrapped (txt "resources") (collect resource_info s.resources s.resource_order)

  unfoldable pub template_info : TemplateEntry W → Value
  template_info t = obj (described (txt "uriTemplate") t.template t.name t.description t.mime_type)

  unfoldable pub template_infos : List (TemplateEntry W) → Values
  template_infos [] = nil
  template_infos (t ∷ ts) = item (template_info t) (template_infos ts)

  unfoldable pub handle_resource_templates_list : Server W → Value
  unfolding template_infos
  handle_resource_templates_list s =
      obj (field (txt "resourceTemplates") (arr (template_infos s.templates)) end)

  unfoldable pub prompt_info : PromptEntry W → Value
  prompt_info p = obj (
      field (txt "name") (str p.name) (
        field (txt "description") (str p.description)
          (field (txt "arguments") (arguments p.arguments) end)))

  unfoldable pub handle_prompts_list : Server W → Outcome Error Value
  handle_prompts_list s = wrapped (txt "prompts") (collect prompt_info s.prompts s.prompt_order)
