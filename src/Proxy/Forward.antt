-- ===== src/Proxy/Forward.antt =====
-- proxy/proxy.go: New, what it registers, and the handlers that forward.
use fastmcp.Proxy.{
  ProxyConfig, TemplateSpec, default_config, expand_placeholders, join_resource_contents, keeps,
  map_value, prompt_arguments, proxy_config, tool_outcome,
}
use fastmcp.Prelude.{
  Text, txt, is_empty, true, false, ◌++◌, List, [], ◌∷◌, Option, none, some, Exec, Slot, within,
  catch, raise, pure, lift, ◌>>=◌, if◌then◌else◌,
}
use fastmcp.Prelude.Dict.{Dict}
use fastmcp.Rpc.{Value, Fields, PromptMessage}
use fastmcp.Session.{World}
use fastmcp.Server.{
  Server, Handler, CompletionFunc, ToolEntry, text_handler, new, with_version, with_instructions,
  register_tool, resource, resource_template, prompt, complete_prompt, complete_resource_template,
}
use fastmcp.Server.Registry.{tool_entry}
use fastmcp.Mount.Delegate.{Wire}
use fastmcp.Mount.Compose.{map_call, object_schema}
use fastmcp.Client.{
  Transport, ClientError, Connected, ClientCodec, ClientTool, ClientResource, ClientPrompt,
}
use fastmcp.Client.Requests.{
  initialize, list_client_tools, call_client_tool, list_client_resources, read_client_resource,
  list_client_prompts, get_client_prompt, complete_client_prompt, complete_client_resource,
}

module _ {W B : Type 0} (codec : ClientCodec) (t : Transport B) (wire : Wire)
    (error_text : ClientError → Text) (slot : Slot (World W) (Connected B)) where
  abbrev pub relayed : {A : Type 0} → Exec (Connected B) ClientError A → Handler W A
  relayed m = catch (within slot m) (λ e. raise (error_text e)) pure

  unfoldable pub forward_tool : Text → Option Fields → Handler W Value
  unfolding call_client_tool tool_outcome
  forward_tool backend_name args = do
    res ← relayed (call_client_tool codec t backend_name (some (map_value args)))
    lift (tool_outcome res)

  unfoldable pub forward_resource : Text → Handler W Text
  unfolding read_client_resource join_resource_contents
  forward_resource uri = do
    items ← relayed (read_client_resource codec t uri)
    pure (join_resource_contents items)

  unfoldable pub forward_template : Text → Dict Text → Handler W Text
  unfolding forward_resource expand_placeholders
  forward_template uri_template params = forward_resource (expand_placeholders uri_template params)

  unfoldable pub forward_prompt : Text → Dict Text → Handler W (List PromptMessage)
  unfolding get_client_prompt
  forward_prompt backend_name args = do
    res ← relayed (get_client_prompt codec t backend_name (prompt_arguments args))
    pure res.messages

  unfoldable pub forward_prompt_completion : Text → CompletionFunc W
  unfolding complete_client_prompt
  forward_prompt_completion backend_name c argument value =
      catch (within slot (complete_client_prompt codec t backend_name argument value))
        (λ e. pure []) (λ res. pure res.values)

  unfoldable pub forward_resource_completion : Text → CompletionFunc W
  unfolding complete_client_resource
  forward_resource_completion uri_template c argument value =
      catch (within slot (complete_client_resource codec t uri_template argument value))
        (λ e. pure []) (λ res. pure res.values)

  unfoldable pub proxied_tool : Text → ClientTool → ToolEntry W
  unfolding forward_tool
  proxied_tool name tool =
      tool_entry name tool.description object_schema none false
        (map_call wire (forward_tool tool.name))

  -- the loop of registerTools
  unfoldable pub with_tool : ProxyConfig → ClientTool → Server W → Server W
  unfolding proxied_tool register_tool
  with_tool cfg tool s =
      if keeps cfg.tool_filter tool.name
      then register_tool (cfg.prefix ++ tool.name) (proxied_tool (cfg.prefix ++ tool.name) tool) s
      else s

  unfoldable pub register_tools : ProxyConfig → List ClientTool → Server W → Server W
  unfolding with_tool
  register_tools cfg [] s = s
  register_tools cfg (tool ∷ tools) s = register_tools cfg tools (with_tool cfg tool s)

  -- the loop of registerResources
  unfoldable pub with_resource : ProxyConfig → ClientResource → Server W → Server W
  unfolding forward_resource resource
  with_resource cfg r s =
      if keeps cfg.res_filter r.uri
      then resource r.uri r.name r.description r.mime_type
          (text_handler (λ c u. forward_resource r.uri)) s
      else s

  unfoldable pub register_resources : ProxyConfig → List ClientResource → Server W → Server W
  unfolding with_resource
  register_resources cfg [] s = s
  register_resources cfg (r ∷ rs) s = register_resources cfg rs (with_resource cfg r s)

  unfoldable pub register_templates : List TemplateSpec → Server W → Server W
  unfolding forward_template forward_resource_completion resource_template
      complete_resource_template
  register_templates [] s = s
  register_templates (spec ∷ specs) s = register_templates specs (
      complete_resource_template spec.uri_template (forward_resource_completion spec.uri_template) (
        resource_template spec.uri_template spec.name spec.description spec.mime_type
          (text_handler (λ c params. forward_template spec.uri_template params)) s))

  -- the loop of registerPrompts
  unfoldable pub with_prompt : ProxyConfig → ClientPrompt → Server W → Server W
  unfolding forward_prompt forward_prompt_completion prompt complete_prompt
  with_prompt cfg p s =
      if keeps cfg.prompt_filter p.name
      then complete_prompt (cfg.prefix ++ p.name) (forward_prompt_completion p.name) (
          prompt (cfg.prefix ++ p.name) p.description (λ c args. forward_prompt p.name args)
            p.arguments s)
      else s

  unfoldable pub register_prompts : ProxyConfig → List ClientPrompt → Server W → Server W
  unfolding with_prompt
  register_prompts cfg [] s = s
  register_prompts cfg (p ∷ ps) s = register_prompts cfg ps (with_prompt cfg p s)

  abbrev pub or_default : Text → Text → Text
  or_default s other = if is_empty s then other else s

  -- what the handshake fills in
  abbrev pub introduced : ProxyConfig → Exec (Connected B) ClientError ProxyConfig
  introduced cfg = elim cfg.handshake [
    | false ↦ pure cfg
    | true ↦ initialize codec t >>= λ res. pure (record cfg {
      server_name = or_default cfg.server_name res.info.name;
      version = or_default cfg.version res.info.version;
      instructions = or_default cfg.instructions res.instructions;
    })
  ]

  abbrev pub option_when :
      Text → (Text → Server W → Server W) → List (Server W → Server W) → List (Server W → Server W)
  option_when s opt opts = if is_empty s then opts else opt s ∷ opts

  unfoldable pub named_server : ProxyConfig → Server W
  unfolding new
  named_server cfg =
      new (or_default cfg.server_name (txt "fastmcp-proxy"))
        (option_when cfg.version with_version (option_when cfg.instructions with_instructions []))

  -- what New registers of the lists
  unfoldable pub assemble :
      ProxyConfig → List ClientTool → List ClientResource → List ClientPrompt → Server W
  unfolding register_tools register_resources register_templates register_prompts named_server
  assemble cfg tools resources prompts = register_prompts cfg prompts (
      register_templates cfg.specs
        (register_resources cfg resources (register_tools cfg tools (named_server cfg))))

  -- New, of a client that is not nil; a list that fails ends it
  unfoldable pub new_proxy :
      List (ProxyConfig → ProxyConfig) → Exec (Connected B) ClientError (Server W)
  unfolding initialize list_client_tools list_client_resources list_client_prompts assemble
  new_proxy opts = do
    cfg ← introduced (proxy_config opts default_config)
    tools ← list_client_tools codec t
    resources ← list_client_resources codec t
    prompts ← list_client_prompts codec t
    pure (assemble cfg tools resources prompts)
