-- ===== src/Proxy/Registered.antt =====
-- proxy/proxy.go: the tools of the server that New assembles.
use fastmcp.Prelude.{
  Text, text_eq_ne, true, ◌++◌, List, [], ◌∷◌, All, some, Slot, ◌≡◌, ◌≢◌, refl, ◌∙◌, inl, inr,
  Bool-cases,
}
use fastmcp.Prelude.Dict.{get, get-put, get-put_self}
use fastmcp.Session.{World}
use fastmcp.Server.{
  Server, register_tool, resource, resource_template, prompt, complete_resource_template,
}
use fastmcp.Server.Registry.{tools-complete_prompt}
use fastmcp.Mount.Delegate.{Wire}
use fastmcp.Client.{
  Transport, ClientError, Connected, ClientCodec, ClientTool, ClientResource, ClientPrompt,
}
use fastmcp.Proxy.{ProxyConfig, TemplateSpec, keeps}
use fastmcp.Proxy.Forward.{
  proxied_tool, with_tool, with_resource, with_prompt, register_tools, register_resources,
  register_templates, register_prompts,
}

module _ {W B : Type 0} (codec : ClientCodec) (t : Transport B) (wire : Wire)
    (error_text : ClientError → Text) (slot : Slot (World W) (Connected B)) where
  tools-with_prompt :
      (cfg : ProxyConfig) (p : ClientPrompt) (s : Server W)
      → (with_prompt codec t wire error_text slot cfg p s).tools ≡ s.tools
  unfolding with_prompt prompt
  tools-with_prompt cfg p s = elim (Bool-cases (keeps cfg.prompt_filter p.name)) [
    | inl e ↦ rw e (tools-complete_prompt _ _ _)
    | inr e ↦ rw e refl
  ]

  pub tools-register_prompts :
      (cfg : ProxyConfig) (ps : List ClientPrompt) (s : Server W)
      → (register_prompts codec t wire error_text slot cfg ps s).tools ≡ s.tools
  unfolding register_prompts
  tools-register_prompts cfg [] s = refl
  tools-register_prompts cfg (p ∷ ps) s =
      tools-register_prompts cfg ps (with_prompt codec t wire error_text slot cfg p s)
      ∙ tools-with_prompt cfg p s

  pub tools-register_templates :
      (specs : List TemplateSpec) (s : Server W)
      → (register_templates codec t wire error_text slot specs s).tools ≡ s.tools
  unfolding register_templates resource_template complete_resource_template
  tools-register_templates [] s = refl
  tools-register_templates (spec ∷ specs) s = tools-register_templates specs _

  tools-with_resource :
      (cfg : ProxyConfig) (r : ClientResource) (s : Server W)
      → (with_resource codec t wire error_text slot cfg r s).tools ≡ s.tools
  unfolding with_resource resource
  tools-with_resource cfg r s = elim (Bool-cases (keeps cfg.res_filter r.uri)) [
    | inl e ↦ rw e refl
    | inr e ↦ rw e refl
  ]

  pub tools-register_resources :
      (cfg : ProxyConfig) (rs : List ClientResource) (s : Server W)
      → (register_resources codec t wire error_text slot cfg rs s).tools ≡ s.tools
  unfolding register_resources
  tools-register_resources cfg [] s = refl
  tools-register_resources cfg (r ∷ rs) s =
      tools-register_resources cfg rs (with_resource codec t wire error_text slot cfg r s)
      ∙ tools-with_resource cfg r s

  get-with_tool_other :
      (cfg : ProxyConfig) (name : Text) (tool : ClientTool) (s : Server W)
      → cfg.prefix ++ tool.name ≢ name
      → get name (with_tool codec t wire error_text slot cfg tool s).tools ≡ get name s.tools
  unfolding with_tool register_tool
  get-with_tool_other cfg name tool s h = elim (Bool-cases (keeps cfg.tool_filter tool.name)) [
    | inl e ↦ rw e (get-put (cfg.prefix ++ tool.name) name _ s.tools ∙ rw (text_eq_ne _ _ h) refl)
    | inr e ↦ rw e refl
  ]

  -- a name that no later tool takes keeps its entry
  get-register_tools :
      (cfg : ProxyConfig) (name : Text) (tools : List ClientTool) (s : Server W)
      → All (λ other. cfg.prefix ++ other.name ≢ name) tools
      → get name (register_tools codec t wire error_text slot cfg tools s).tools ≡ get name s.tools
  unfolding register_tools
  get-register_tools cfg name [] s h = refl
  get-register_tools cfg name (tool ∷ tools) s h =
      get-register_tools cfg name tools (with_tool codec t wire error_text slot cfg tool s) h.1
      ∙ get-with_tool_other cfg name tool s h.0

  get-with_tool :
      (cfg : ProxyConfig) (tool : ClientTool) (s : Server W)
      → keeps cfg.tool_filter tool.name ≡ true
      → get (cfg.prefix ++ tool.name) (with_tool codec t wire error_text slot cfg tool s).tools
        ≡ some (proxied_tool codec t wire error_text slot (cfg.prefix ++ tool.name) tool)
  unfolding with_tool register_tool
  get-with_tool cfg tool s k = rw k (get-put_self (cfg.prefix ++ tool.name) _ s.tools)

  pub get-kept_tool :
      (cfg : ProxyConfig) (before after : List ClientTool) (tool : ClientTool) (s : Server W)
      → keeps cfg.tool_filter tool.name ≡ true
      → All (λ other. cfg.prefix ++ other.name ≢ cfg.prefix ++ tool.name) after
      → get
          (cfg.prefix ++ tool.name)
          (register_tools codec t wire error_text slot cfg (before ++ tool ∷ after) s).tools
        ≡ some (proxied_tool codec t wire error_text slot (cfg.prefix ++ tool.name) tool)
  unfolding register_tools
  get-kept_tool cfg [] after tool s k h =
      get-register_tools cfg (cfg.prefix ++ tool.name) after
        (with_tool codec t wire error_text slot cfg tool s) h
      ∙ get-with_tool cfg tool s k
  get-kept_tool cfg (b ∷ before) after tool s k h = get-kept_tool cfg before after tool _ k h
