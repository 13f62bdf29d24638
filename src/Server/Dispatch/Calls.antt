-- ===== src/Server/Dispatch/Calls.antt =====
-- tools/call of dispatch.go: errors of the request against errors of the tool.
use fastmcp.Prelude.{
  Text, txt, text_eq, Bool, true, false, ◌&&◌, not, [], ◌∷◌, Option, none, some, Outcome, ok, err,
  panic, Result, done, failed, Option-cases, inl, inr, ◌⊎◌, ◌≢◌, Exec, ◌>>=◌, lift, ◌≡◌, refl,
  arith, if◌then◌else◌, branch,
}
use fastmcp.Prelude.Dict.{get}
use fastmcp.Rpc.{Value, bool, obj, contents, Fields, end, field, Error, new_text_content}
use fastmcp.Rpc.Codes.{err_invalid_params}
use fastmcp.Session.{World}
use fastmcp.Server.{Server, Context, ToolEntry}
use fastmcp.Server.Codec.{Codec, CallToolParams}
use fastmcp.Server.Dispatch.Handlers.{
  handle_tools_call, run_tool, tool_error, tool_result, to_content, is_null, or_invalid, or_unknown,
}

-- a member of an object, as a client reads it
unfoldable pub member_of : Text → Fields → Option Value
member_of k end = none
member_of k (field j v fs) = if text_eq j k then some v else member_of k fs

abbrev pub member : Text → Value → Option Value
member k (obj fs) = member_of k fs
member k _ = none

-- What the client is told of a tool's run. An error of the tool is a result marked by isError with
-- the text of the error; a result carries its content, and its value too for a tool with structured
-- output whose value is not null. A panic goes on.
abbrev pub Reports : Codec → Bool → Outcome Text Value → Outcome Error Value → Type 0
Reports lib structured (ok r) o =
    (v : Value) × (o ≡ ok v)
    × (member (txt "isError") v ≡ none)
    × (member (txt "content") v ≡ some (contents (to_content lib r)))
    × (member (txt "structuredContent") v
        ≡ (if structured && not (is_null r) then some r else none))
Reports lib structured (err e) o =
    (v : Value) × (o ≡ ok v)
    × (member (txt "isError") v ≡ some (bool true))
    × (member (txt "content") v ≡ some (contents (new_text_content e ∷ [])))
    × (member (txt "structuredContent") v ≡ none)
Reports lib structured (panic m) o = o ≡ panic m

module _ {W : Type 0} (lib : Codec) where
  report :
      (structured : Bool) (r : Outcome Text Value) (w : World W)
      → Reports lib structured r
          (branch {E = Error} r
            (λ e w. (ok (tool_error e), w))
            (λ v w. (ok (tool_result lib structured v), w))
            w).0
  unfolding tool_error tool_result member_of text_eq
  report true (ok r) w = (tool_result lib true r, refl, ground arith, ground arith, ground arith)
  report false (ok r) w = (_, refl, refl, refl, refl)
  report st (err e) w = (_, refl, refl, refl, refl)
  report st (panic m) w = refl

  branch_world :
      (structured : Bool) (r : Outcome Text Value) (w : World W)
      → (branch {E = Error} r
          (λ e w. (ok (tool_error e), w))
          (λ v w. (ok (tool_result lib structured v), w))
          w).1
        ≡ w
  branch_world st (ok r) w = refl
  branch_world st (err e) w = refl
  branch_world st (panic m) w = refl

  branch-ne-err :
      (structured : Bool) (r : Outcome Text Value) (w : World W) (e : Error)
      → (branch {E = Error} r
          (λ e w. (ok (tool_error e), w))
          (λ v w. (ok (tool_result lib structured v), w))
          w).0
        ≢ err e
  branch-ne-err st (ok r) w e = cc
  branch-ne-err st (err m) w e = cc
  branch-ne-err st (panic m) w e = cc

  run_tool-Reports :
      (c : Context) (arguments : Text) (tool : ToolEntry W) (w : World W)
      → Reports lib tool.structured (tool.call c arguments w).0 (run_tool lib c arguments tool w).0
        × ((run_tool lib c arguments tool w).1 ≡ (tool.call c arguments w).1)
  unfolding run_tool
  run_tool-Reports c arguments tool w =
      let run = tool.call c arguments w in
      (report tool.structured run.0 run.1, branch_world tool.structured run.0 run.1)

  run_tool-ne-err :
      (c : Context) (arguments : Text) (tool : ToolEntry W) (w : World W) (e : Error)
      → (run_tool lib c arguments tool w).0 ≢ err e
  unfolding run_tool
  run_tool-ne-err c arguments tool w e =
      let run = tool.call c arguments w in branch-ne-err tool.structured run.0 run.1 e

  -- A call of a registered tool runs it once, on the world of the call, and reports its outcome.
  pub tools_call-Reports :
      (s : Server W) (c : Context) (params : Text) (w : World W) {p : CallToolParams}
      {tool : ToolEntry W}
      → lib.call_tool_params params ≡ done p
      → get p.name s.tools ≡ some tool
      → Reports lib tool.structured
          (tool.call c p.arguments w).0
          (handle_tools_call lib s c params w).0
        × ((handle_tools_call lib s c params w).1 ≡ (tool.call c p.arguments w).1)
  unfolding handle_tools_call
  tools_call-Reports s c params w {p = p} {tool = tool} d g =
      rw d (rw g (run_tool-Reports c p.arguments tool w))

  -- the handler, from what decoding and the map give
  abbrev call_found :
      Context
      → Result CallToolParams
      → (CallToolParams → Option (ToolEntry W))
      → Exec (World W) Error Value
  call_found c d look = do
    p ← lift (or_invalid d)
    tool ← lift (or_unknown (txt "unknown tool: ") p.name (look p))
    run_tool lib c p.arguments tool

  abbrev Fails : Result CallToolParams → (CallToolParams → Option (ToolEntry W)) → Type 0
  Fails d look =
      ((m : Text) × (d ≡ failed m)) ⊎ ((p : CallToolParams) × (d ≡ done p) × (look p ≡ none))

  lookup_failures :
      (c : Context) (w : World W) (d : Result CallToolParams)
      (look : CallToolParams → Option (ToolEntry W)) (e : Error)
      → (call_found c d look w).0 ≡ err e
      → (e.code ≡ err_invalid_params) × ((call_found c d look w).1 ≡ w) × Fails d look
  lookup_failures c w (failed m) look e h = (ground arith, refl, inl (m, refl))
  lookup_failures c w (done p) look e h = elim (Option-cases (look p)) [
    | inl missing ↦ (ground (arith, rw missing at h), rw missing, inr (p, refl, missing))
    | inr (tool, found) ↦ absurd (run_tool-ne-err c p.arguments tool w e (rw found at h))
  ]

  -- tools/call answers with a JSON-RPC error only for parameters that do not decode or a tool that is
  -- not registered: the error is -32602, and no handler has run.
  pub tools_call_error :
      (s : Server W) (c : Context) (params : Text) (w : World W) {e : Error}
      → (handle_tools_call lib s c params w).0 ≡ err e
      → (e.code ≡ err_invalid_params)
        × ((handle_tools_call lib s c params w).1 ≡ w)
        × (((m : Text) × (lib.call_tool_params params ≡ failed m))
            ⊎ ((p : CallToolParams) × (lib.call_tool_params params ≡ done p)
                × (get p.name s.tools ≡ none)))
  unfolding handle_tools_call
  tools_call_error s c params w {e = e} h =
      lookup_failures c w (lib.call_tool_params params) (λ p. get p.name s.tools) e h
