-- ===== src/Proxy.antt =====
-- proxy/proxy.go: a server that forwards to another, through a client of it. The client's state is a part of
-- the proxy's world. The text of an error and the building of a tool from a function of a map are given; a
-- prompt's empty map of arguments is nil. The order in which placeholders are replaced is that of the map.
pub mod Forward
pub mod Registered
pub mod Relays
use fastmcp.Prelude.{
  ℕ, zero, suc, ◌-◌, Text, txt, is_empty, has_prefix, length, Bool, true, false, not, ◌&&◌, ◌++◌,
  List, [], ◌∷◌, Option, none, some, Outcome, ok, err, Exec, Slot, within, catch, raise, pure, lift,
  ◌>>=◌, ◌>>◌, if◌then◌else◌,
}
use fastmcp.Prelude.Dict.{Dict}
use fastmcp.Rpc.{
  Value, null, str, obj, contents, Fields, end, field, Content, ResourceContents, PromptMessage,
  new_text_content,
}
use fastmcp.Session.{World}
use fastmcp.Auth.{contains_string}
use fastmcp.Server.{
  Server, Context, Handler, CompletionFunc, ToolEntry, text_handler, new, with_version,
  with_instructions, register_tool, resource, resource_template, prompt, complete_prompt,
  complete_resource_template,
}
use fastmcp.Server.Registry.{tool_entry}
use fastmcp.Mount.Delegate.{Wire}
use fastmcp.Mount.Compose.{map_call, object_schema}
use fastmcp.Client.{
  Transport, ClientError, Connected, ClientCodec, ClientTool, ClientResource, ClientPrompt,
  CallToolResult,
}
use fastmcp.Client.Requests.{
  initialize, list_client_tools, call_client_tool, list_client_resources, read_client_resource,
  list_client_prompts, get_client_prompt, complete_client_prompt, complete_client_resource,
}

pub record TemplateSpec : Type 0 where
  pub uri_template : Text
  pub name : Text
  pub description : Text
  pub mime_type : Text

pub record ProxyConfig : Type 0 where
  pub server_name : Text
  pub version : Text
  pub instructions : Text
  pub prefix : Text
  pub handshake : Bool
  pub tool_filter : Option (Text → Bool)
  pub res_filter : Option (Text → Bool)
  pub prompt_filter : Option (Text → Bool)
  pub specs : List TemplateSpec

abbrev pub with_server_name : Text → ProxyConfig → ProxyConfig
with_server_name name cfg = record cfg { server_name = name }

abbrev pub with_name_prefix : Text → ProxyConfig → ProxyConfig
with_name_prefix prefix cfg = record cfg { prefix = prefix }

abbrev pub without_initialize : ProxyConfig → ProxyConfig
without_initialize cfg = record cfg { handshake = false }

abbrev pub with_tool_filter : (Text → Bool) → ProxyConfig → ProxyConfig
with_tool_filter keep cfg = record cfg { tool_filter = some keep }

abbrev pub with_allowed_tools : List Text → ProxyConfig → ProxyConfig
with_allowed_tools names = with_tool_filter (contains_string names)

abbrev pub with_resource_templates : List TemplateSpec → ProxyConfig → ProxyConfig
with_resource_templates specs cfg = record cfg { specs = cfg.specs ++ specs }

abbrev pub with_proxy_version : Text → ProxyConfig → ProxyConfig
with_proxy_version version cfg = record cfg { version = version }

abbrev pub with_proxy_instructions : Text → ProxyConfig → ProxyConfig
with_proxy_instructions instructions cfg = record cfg { instructions = instructions }

abbrev pub with_resource_filter : (Text → Bool) → ProxyConfig → ProxyConfig
with_resource_filter keep cfg = record cfg { res_filter = some keep }

abbrev pub with_prompt_filter : (Text → Bool) → ProxyConfig → ProxyConfig
with_prompt_filter keep cfg = record cfg { prompt_filter = some keep }

-- the loop of New over its options
abbrev pub proxy_config : List (ProxyConfig → ProxyConfig) → ProxyConfig → ProxyConfig
proxy_config [] cfg = cfg
proxy_config (opt ∷ opts) cfg = proxy_config opts (opt cfg)

abbrev pub default_config : ProxyConfig
default_config = record {
  server_name = [];
  version = [];
  instructions = [];
  prefix = [];
  handshake = true;
  tool_filter = none;
  res_filter = none;
  prompt_filter = none;
  specs = [];
}

-- a nil filter keeps all
abbrev pub keeps : Option (Text → Bool) → Text → Bool
keeps none name = true
keeps (some keep) name = keep name

-- the texts that are not empty
unfoldable pub text_parts : List Content → List Text
text_parts [] = []
text_parts (c ∷ cs) = let rest = text_parts cs in if is_empty c.text then rest else c.text ∷ rest

abbrev pub join_lines : List Text → Text
join_lines [] = []
join_lines (s ∷ []) = s
join_lines (s ∷ t ∷ ss) = s ++ (txt "\n" ++ join_lines (t ∷ ss))

-- joinTextContent
unfoldable pub join_text_content : List Content → Text
unfolding text_parts
join_text_content cs =
    if is_empty (text_parts cs) then txt "tool error" else join_lines (text_parts cs)

-- joinResourceContents
unfoldable pub join_resource_contents : List ResourceContents → Text
join_resource_contents [] = []
join_resource_contents (c ∷ cs) =
    (if is_empty c.text then c.blob else c.text) ++ join_resource_contents cs

-- strings.ReplaceAll of a text that is not empty, with how many bytes of a match are still to pass
unfoldable pub replace_from : ℕ → Text → Text → Text → Text
replace_from passing old fresh [] = []
replace_from zero old fresh (c ∷ s) = elim (has_prefix (c ∷ s) old) [
  | true ↦ fresh ++ replace_from (length old - 1) old fresh s
  | false ↦ c ∷ replace_from zero old fresh s
]
replace_from (suc k) old fresh (c ∷ s) = replace_from k old fresh s

-- expandTemplate
unfoldable pub expand_placeholders : Text → Dict Text → Text
unfolding replace_from
expand_placeholders tmpl [] = tmpl
expand_placeholders tmpl ((name, value) ∷ params) =
    expand_placeholders (replace_from 0 (txt "{" ++ (name ++ txt "}")) value tmpl) params

-- the content that is passed on: structured output alone is shown as text
abbrev pub shown : CallToolResult → List Content
shown res =
    if is_empty res.content && not (is_empty res.structured_content)
    then new_text_content res.structured_content ∷ []
    else res.content

-- the end of forwardTool's handler
unfoldable pub tool_outcome : CallToolResult → Outcome Text Value
unfolding join_text_content
tool_outcome res =
    if res.is_error then err (join_text_content res.content) else ok (contents (shown res))

-- the arguments that a handler passes on: a nil map is null
abbrev pub map_value : Option Fields → Value
map_value none = null
map_value (some fs) = obj fs

abbrev pub text_fields : Dict Text → Fields
text_fields [] = end
text_fields ((k, v) ∷ d) = field k (str v) (text_fields d)

abbrev pub prompt_arguments : Dict Text → Option Value
prompt_arguments [] = none
prompt_arguments (kv ∷ d) = some (obj (text_fields (kv ∷ d)))
