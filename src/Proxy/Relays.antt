-- ===== src/Proxy/Relays.antt =====
-- proxy/proxy.go: what a tool of the proxy does behind the proxy's own tools/call.
use fastmcp.Prelude.{
  Text, txt, text_eq, is_empty, Bool, true, false, ◌||◌, ◌++◌, List, [], ◌∷◌, All, Option, none,
  some, done, Outcome, ok, err, panic, Slot, catch, raise, pure, lift, ◌>>=◌, ◌≡◌, ◌≢◌, refl, subst,
  ◌∙◌, sym, if◌then◌else◌, ap, inl, inr, Bool-cases,
}
use fastmcp.Prelude.Dict.{get}
use fastmcp.Rpc.{Value, bool, obj, Content, contents, Error, Fields, new_text_content}
use fastmcp.Session.{World}
use fastmcp.Server.{Handler, Context}
use fastmcp.Server.Codec.{Codec, CallToolParams}
use fastmcp.Server.Dispatch.Handlers.{to_content, handle_tools_call}
use fastmcp.Server.Dispatch.Calls.{Reports, member, tools_call-Reports}
use fastmcp.Mount.Delegate.{Wire}
use fastmcp.Mount.Compose.{map_call}
use fastmcp.Client.{
  Transport, ClientError, Connected, ClientCodec, ClientTool, ClientResource, ClientPrompt,
  CallToolResult,
}
use fastmcp.Client.Requests.{call_client_tool}
use mathlib.Core.List.{append-nil}
use fastmcp.Proxy.{
  ProxyConfig, keeps, text_parts, join_lines, join_text_content, shown, tool_outcome,
}
use fastmcp.Proxy.Forward.{forward_tool, proxied_tool, register_tools, assemble, named_server}
use fastmcp.Proxy.Registered.{
  tools-register_prompts, tools-register_templates, tools-register_resources, get-kept_tool,
}

module _ {W B : Type 0} (codec : ClientCodec) (t : Transport B) (wire : Wire)
    (error_text : ClientError → Text) (slot : Slot (World W) (Connected B)) where
  -- what the backend's answer is to the handler
  abbrev forwarded : Outcome ClientError CallToolResult → Outcome Text Value
  forwarded (ok res) = tool_outcome res
  forwarded (err e) = err (error_text e)
  forwarded (panic m) = panic m

  forward_tool-forwarded :
      (name : Text) (fs : Fields) (w : World W)
      → forward_tool codec t wire error_text slot name (some fs) w ≡ (
        forwarded (call_client_tool codec t name (some (obj fs)) (slot.read w)).0,
        slot.write (call_client_tool codec t name (some (obj fs)) (slot.read w)).1 w,
      )
  unfolding forward_tool
  forward_tool-forwarded name fs w =
      answered (call_client_tool codec t name (some (obj fs)) (slot.read w)).0
        (call_client_tool codec t name (some (obj fs)) (slot.read w)).1
    where
      answered :
          (r : Outcome ClientError CallToolResult) (b : Connected B)
          → (catch {E = Text} (λ w. (r, slot.write b w)) (λ e. raise (error_text e)) pure >>= λ res.
                lift (tool_outcome res))
              w
            ≡ (forwarded r, slot.write b w)
      answered (ok res) b = refl
      answered (err e) b = refl
      answered (panic m) b = refl

-- the texts of blocks that are not empty, each after a line feed but the first
abbrev pub more_lines : List Content → Text
more_lines [] = []
more_lines (c ∷ cs) = if is_empty c.text then more_lines cs else 10 ∷ c.text ++ more_lines cs

abbrev pub lines_of : List Content → Text
lines_of [] = []
lines_of (c ∷ cs) = if is_empty c.text then lines_of cs else c.text ++ more_lines cs

-- A tool error is told by the lines of its content, or as "tool error" where it has no text. Other content is
-- told as it is; of a result that has none, its structured content as text, if it has that.
abbrev pub RelaysResult : CallToolResult → Bool → Outcome Error Value → Type 0
RelaysResult res true o =
    (v : Value) × (text : Text) × (o ≡ ok v)
    × (member (txt "isError") v ≡ some (bool true))
    × (member (txt "content") v ≡ some (contents (new_text_content text ∷ [])))
    × (lines_of res.content ≢ [] → text ≡ lines_of res.content)
    × (lines_of res.content ≡ [] → text ≡ txt "tool error")
RelaysResult res false o =
    (v : Value) × (told : List Content) × (o ≡ ok v)
    × (member (txt "isError") v ≡ none)
    × (member (txt "content") v ≡ some (contents told))
    × (res.content ≢ [] → told ≡ res.content)
    × (res.content ≡ []
        → res.structured_content ≢ []
        → told ≡ new_text_content res.structured_content ∷ [])
    × (res.content ≡ [] → res.structured_content ≡ [] → told ≡ [])

joined_more : (t : Text) (cs : List Content) → join_lines (t ∷ text_parts cs) ≡ t ++ more_lines cs
unfolding text_parts
joined_more t [] = sym (append-nil t)
joined_more t (c ∷ cs) = elim (Bool-cases (is_empty c.text)) [
  | inl e ↦ rw e (joined_more t cs)
  | inr e ↦ rw e (ap (λ x. t ++ 10 ∷ x) (joined_more c.text cs))
]

joined_lines : (cs : List Content) → join_lines (text_parts cs) ≡ lines_of cs
unfolding text_parts
joined_lines [] = refl
joined_lines (c ∷ cs) = elim (Bool-cases (is_empty c.text)) [
  | inl e ↦ rw e (joined_lines cs)
  | inr e ↦ rw e (joined_more c.text cs)
]

some_text : (s t : Text) → is_empty s ≡ false → s ++ t ≢ []
some_text [] t e h = cc
some_text (c ∷ s) t e h = cc

no_lines : (cs : List Content) → is_empty (text_parts cs) ≡ true → lines_of cs ≡ []
unfolding text_parts
no_lines [] e = refl
no_lines (c ∷ cs) e = elim (Bool-cases (is_empty c.text)) [
  | inl q ↦ rw q (no_lines cs (rw q at e))
  | inr q ↦ let f = rw q at e in cc
]

some_lines : (cs : List Content) → is_empty (text_parts cs) ≡ false → lines_of cs ≢ []
unfolding text_parts
some_lines [] e = cc
some_lines (c ∷ cs) e = elim (Bool-cases (is_empty c.text)) [
  | inl q ↦ rw q (some_lines cs (rw q at e))
  | inr q ↦ rw q (some_text c.text (more_lines cs) q)
]

join_text_content-lines_of :
    (cs : List Content)
    → (lines_of cs ≢ [] → join_text_content cs ≡ lines_of cs)
      × (lines_of cs ≡ [] → join_text_content cs ≡ txt "tool error")
unfolding join_text_content
join_text_content-lines_of cs = elim (Bool-cases (is_empty (text_parts cs))) [
  | inl e ↦ rw e (λ h. absurd (h (no_lines cs e)), λ h. refl)
  | inr e ↦ rw e (λ h. joined_lines cs, λ h. absurd (some_lines cs e h))
]

shown_told :
    (res : CallToolResult) (cs : List Content) (st : Text)
    → res.content ≡ cs
    → res.structured_content ≡ st
    → (cs ≢ [] → shown res ≡ cs)
      × (cs ≡ [] → st ≢ [] → shown res ≡ new_text_content st ∷ [])
      × (cs ≡ [] → st ≡ [] → shown res ≡ [])
shown_told res [] [] e f = rw (e, f) (λ h. refl, λ h k. absurd (k refl), λ h k. refl)
shown_told res [] (x ∷ st) e f = rw (e, f) (λ h. absurd (h refl), λ h k. refl, λ h k. cc)
shown_told res (c ∷ cs) st e f = rw e (λ h. refl, λ h k. cc, λ h k. cc)

-- What a client of the proxy is told of the backend's answer. A result's content is passed on; its error, and
-- any error of the call itself, is a result marked by isError.
abbrev pub Relays :
    (ClientError → Text) → Outcome ClientError CallToolResult → Outcome Error Value → Type 0
Relays error_text (ok res) o = RelaysResult res res.is_error o
Relays error_text (err e) o =
    (v : Value) × (o ≡ ok v)
    × (member (txt "isError") v ≡ some (bool true))
    × (member (txt "content") v ≡ some (contents (new_text_content (error_text e) ∷ [])))
Relays error_text (panic m) o = o ≡ panic m

Relays-Reports :
    (lib : Codec) (res : CallToolResult) (o : Outcome Error Value)
    → Reports lib false (tool_outcome res) o
    → RelaysResult res res.is_error o
unfolding to_content tool_outcome
Relays-Reports lib res o h = elim (Bool-cases res.is_error) [
  | inl e ↦
      let k = rw e at h in
      let said = join_text_content-lines_of res.content in
      rw e (k.0, join_text_content res.content, k.1, k.2, k.3, said.0, said.1)
  | inr e ↦
      let k = rw e at h in
      let told = shown_told res res.content res.structured_content refl refl in
      rw e (k.0, shown res, k.1, k.2, k.3, told.0, told.1, told.2)
]

module _ {W B : Type 0} (codec : ClientCodec) (t : Transport B) (wire : Wire)
    (error_text : ClientError → Text) (slot : Slot (World W) (Connected B)) (lib : Codec) where
  Relays-forwarded :
      (r : Outcome ClientError CallToolResult) (o : Outcome Error Value)
      → Reports lib false (forwarded codec t wire error_text slot r) o
      → Relays error_text r o
  Relays-forwarded (ok res) o h = Relays-Reports lib res o h
  Relays-forwarded (err e) o h = (h.0, h.1, h.2, h.3)
  Relays-forwarded (panic m) o h = h

  map_call_given :
      (f : Option Fields → Handler W Value) (c : Context) (raw : Text) (fs : Fields)
      → (is_empty raw || text_eq raw (txt "null")) ≡ false
      → wire.arguments_json raw ≡ done fs
      → map_call wire f c raw ≡ f (some fs)
  map_call_given f c raw fs given d = rw given (rw d refl)

  -- The proxy that New assembles of the backend's lists answers tools/call, for a tool that its filter keeps
  -- and whose prefixed name no later tool has, where the client gives arguments (a map, and neither nothing nor
  -- null), by one call of the backend's tool under its own name, with these arguments: the backend's state afterwards is that of this call, and the client is
  -- told of its answer.
  pub proxied_call-Relays :
      (cfg : ProxyConfig) (before after : List ClientTool) (tool : ClientTool)
      (resources : List ClientResource) (prompts : List ClientPrompt) (c : Context) (params : Text)
      (w : World W) (p : CallToolParams) (fs : Fields)
      → keeps cfg.tool_filter tool.name ≡ true
      → All (λ other. cfg.prefix ++ other.name ≢ cfg.prefix ++ tool.name) after
      → lib.call_tool_params params ≡ done p
      → p.name ≡ cfg.prefix ++ tool.name
      → (is_empty p.arguments || text_eq p.arguments (txt "null")) ≡ false
      → wire.arguments_json p.arguments ≡ done fs
      → Relays error_text
          (call_client_tool codec t tool.name (some (obj fs)) (slot.read w)).0
          (handle_tools_call lib
            (assemble codec t wire error_text slot cfg (before ++ tool ∷ after) resources prompts)
            c
            params
            w).0
        × ((handle_tools_call lib
              (assemble codec t wire error_text slot cfg (before ++ tool ∷ after) resources prompts)
              c
              params
              w).1
            ≡ slot.write (call_client_tool codec t tool.name (some (obj fs)) (slot.read w)).1 w)
  unfolding assemble proxied_tool
  proxied_call-Relays cfg before after tool resources prompts c params w p fs k h d named given
        args =
      let s =
        assemble codec t wire error_text slot cfg (before ++ tool ∷ after) resources prompts in
      let kept =
        register_tools codec t wire error_text slot cfg (before ++ tool ∷ after)
          (named_server codec t wire error_text slot cfg) in
      let same : s.tools ≡ kept.tools =
        tools-register_prompts codec t wire error_text slot cfg prompts _
        ∙ (tools-register_templates codec t wire error_text slot cfg.specs _
            ∙ tools-register_resources codec t wire error_text slot cfg resources kept) in
      let found : get p.name s.tools
          ≡ some (proxied_tool codec t wire error_text slot (cfg.prefix ++ tool.name) tool) =
        ap (λ n. get n s.tools) named
        ∙ (ap (λ m. get (cfg.prefix ++ tool.name) m) same
            ∙ get-kept_tool codec t wire error_text slot cfg before after tool _ k h) in
      let told = tools_call-Reports lib s c params w d found in
      let run =
        ap (λ act. act w)
          (map_call_given (forward_tool codec t wire error_text slot tool.name) c p.arguments fs
            given args)
        ∙ forward_tool-forwarded codec t wire error_text slot tool.name fs w in
      let answered =
        subst (λ r. Reports lib false r (handle_tools_call lib s c params w).0) (ap (λ x. x.0) run)
          told.0 in
      (Relays-forwarded _ _ answered, told.1 ∙ ap (λ x. x.1) run)
