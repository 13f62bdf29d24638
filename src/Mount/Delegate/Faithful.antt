-- ===== src/Mount/Delegate/Faithful.antt =====
-- What a tool of a mounted server, of mount/delegate.go, gives its caller.
use mathlib.Core.List.{append-nil}
use fastmcp.Prelude.{
  Text, Exec, pure, txt, text_eq, take, Bool, true, false, List, [], ◌∷◌, ◌++◌, Option, none, some,
  done, Outcome, ok, err, panic, branch, lift, ◌>>=◌, ◌≡◌, refl, ap, ◌∙◌,
}
use fastmcp.Prelude.Dict.{get}
use fastmcp.Rpc.{
  Value, contents, Fields, Content, Error, Request, is_notification, result_response,
  new_text_content,
}
use fastmcp.Session.{World}
use fastmcp.Server.{Server, Context, ToolEntry}
use fastmcp.Server.Codec.{Codec}
use fastmcp.Server.Dispatch.{dispatch, reply}
use fastmcp.Server.Dispatch.Handlers.{
  handle_tools_call, run_tool, tool_result, tool_error, to_content, or_invalid, or_unknown,
}
use fastmcp.Server.Dispatch.Routes.{route_tools_call}
use fastmcp.Uri.Placeholders.{trim_space}
use fastmcp.Http.{
  HttpCodec, HttpAnswer, one, post_context, http_handler, handle_http_post, starts_array,
  body_limit,
}
use fastmcp.Http.Single.{handle_http_post-dispatch, answered}
use fastmcp.Mount.Delegate.{
  Wire, tool_params, call, call_tool, reported, content_text, or_decoding, result_or_error,
}

-- what the caller on the parent gets of the child's run
abbrev pub passed_on : Codec → Outcome Text Value → Outcome Text Value
passed_on lib (ok v) = ok (contents (to_content lib v))
passed_on lib (err e) = err e
passed_on lib (panic m) = panic m

-- the result that the child's dispatch makes of it
abbrev ran : Codec → Bool → Outcome Text Value → Outcome Error Value
ran lib structured (ok v) = ok (tool_result lib structured v)
ran lib structured (err e) = ok (tool_error e)
ran lib structured (panic m) = panic m

module _ (lib : Codec) (json : HttpCodec) (wire : Wire) where
  -- encoding/json carries a call of a tool: the child's decoders read back what was encoded.
  pub record CarriesCall (name : Text) (args : Option Fields) (req : Request) (raw : Text)
      : Type 0 where
    pub body : Text
    pub text : Text
    pub encoded : wire.encode_request (txt "tools/call") (tool_params name args) ≡ done body
    pub trimmed : trim_space (take body_limit body) ≡ text
    pub single : starts_array text ≡ false
    pub parsed : json.request_json text ≡ done req
    pub method_read : req.method ≡ txt "tools/call"
    pub id_read : is_notification req ≡ false
    pub params_read :
        lib.call_tool_params req.params ≡ done (record { name = name; arguments = raw })

  -- It carries a result, which is read back with its content and its mark.
  abbrev pub CarriesResult : Text → Value → List Content → Bool → Type 0
  CarriesResult id v cs marked =
      (raw : Text) × (wire.answer_json (one (result_response id v)) ≡ done (raw, none))
      × (wire.tool_result_json raw ≡ done (cs, marked))

  abbrev pub CarriesRun : Text → Bool → Outcome Text Value → Type 0
  CarriesRun id structured (ok v) =
      CarriesResult id (tool_result lib structured v) (to_content lib v) false
  CarriesRun id structured (err e) = CarriesResult id (tool_error e) (new_text_content e ∷ []) true
  CarriesRun id structured (panic m) = Unit

module _ {V : Type 0} (lib : Codec) (json : HttpCodec) (wire : Wire) (child : Server V) where
  branch-ran :
      (structured : Bool) (r : Outcome Text Value) (w : World V)
      → branch {E = Error} r
          (λ e w. (ok (tool_error e), w))
          (λ v w. (ok (tool_result lib structured v), w))
          w
        ≡ (ran lib structured r, w)
  branch-ran structured (ok v) w = refl
  branch-ran structured (err e) w = refl
  branch-ran structured (panic m) w = refl

  handled :
      (c : Context) (params name raw : Text) (tool : ToolEntry V) (w : World V)
      → lib.call_tool_params params ≡ done (record { name = name; arguments = raw })
      → get name child.tools ≡ some tool
      → handle_tools_call lib child c params w
        ≡ (ran lib tool.structured (tool.call c raw w).0, (tool.call c raw w).1)
  unfolding handle_tools_call run_tool
  handled c params name raw tool w read found =
      rw (read, or_invalid)
        (rw (found, or_unknown)
          (branch-ran tool.structured (tool.call c raw w).0 (tool.call c raw w).1))

  dispatch_tool :
      (req : Request) (name raw : Text) (tool : ToolEntry V) (w : World V)
      → req.method ≡ txt "tools/call"
      → lib.call_tool_params req.params ≡ done (record { name = name; arguments = raw })
      → get name child.tools ≡ some tool
      → dispatch lib child (post_context req) w ≡ (
        reply req (ran lib tool.structured (tool.call (post_context req) raw w).0),
        (tool.call (post_context req) raw w).1,
      )
  unfolding dispatch
  dispatch_tool req name raw tool w method params found =
      ap (λ p. (reply req p.0, p.1))
        (ap (λ act. act w) (route_tools_call lib child (post_context req) req.params method)
          ∙ handled (post_context req) req.params name raw tool w params found)

  -- what callTool does with the answer
  abbrev after : Outcome ⊥ HttpAnswer → Exec (World V) Text Value
  after o = do
    raw ← do
      answer ← branch o (λ e. absurd e) pure
      resp ← lift (
          or_decoding (txt "decoding " ++ (txt "tools/call" ++ txt " response"))
            (wire.answer_json answer))
      lift (result_or_error lib json wire child (txt "tools/call") resp)
    out ← lift (or_decoding (txt "decoding tool result") (wire.tool_result_json raw))
    lift (reported out.0 out.1)

  after-ran :
      (req : Request) (structured : Bool) (r : Outcome Text Value) (w : World V)
      → is_notification req ≡ false
      → CarriesRun lib json wire req.id structured r
      → after (answered (reply req (ran lib structured r))) w ≡ (passed_on lib r, w)
  unfolding content_text text_eq
  after-ran req structured (ok v) w h (raw, e1, e2) = rw h (rw e1 (rw e2))
  after-ran req structured (err e) w h (raw, e1, e2) =
      rw h (rw e1 (rw e2 (ap (λ t. (err t, w)) (append-nil e))))
  after-ran req structured (panic m) w h run = refl

  -- Calling a tool of the child through its handler runs it once: a value comes back as its content, an
  -- error as an error with the same text, and a panic goes on. The child's world is what the run left.
  pub call_tool-passed_on :
      (name : Text) (args : Option Fields) (req : Request) (raw : Text) (tool : ToolEntry V)
      (w : World V)
      → get name child.tools ≡ some tool
      → CarriesCall lib json wire name args req raw
      → CarriesRun lib json wire req.id tool.structured (tool.call (post_context req) raw w).0
      → call_tool lib json wire child name args w ≡ (
        passed_on lib (tool.call (post_context req) raw w).0,
        (tool.call (post_context req) raw w).1,
      )
  unfolding call_tool call http_handler text_eq
  call_tool-passed_on name args req raw tool w found carries run =
      let r = tool.call (post_context req) raw w in
      let posted : handle_http_post lib json child (done carries.body) w
          ≡ (answered (reply req (ran lib tool.structured r.0)), r.1) =
        handle_http_post-dispatch lib json child carries.body carries.text req w carries.trimmed
          carries.single carries.parsed
        ∙ ap (λ p. (answered p.0, p.1))
            (dispatch_tool req name raw tool w carries.method_read carries.params_read found) in
      rw (carries.encoded) (rw posted (after-ran req tool.structured r.0 r.1 carries.id_read run))
