-- ===== src/Tests/Serving.antt =====
-- Runs of the server: dispatch, tools, lists and registration.
use fastmcp.Prelude.{
  ℕ, Text, txt, List, [], ◌∷◌, none, failed, ◌⊎◌, done, ◌≡◌, refl, true, false, text_eq,
}
use fastmcp.Prelude.Dict.{get}
use fastmcp.Rpc.{end, new_error}
use fastmcp.Rpc.Codes.{err_invalid_params}
use fastmcp.Server.{new}
use fastmcp.Server.Codec.{CallToolParams}
use fastmcp.Server.Listing.{tool_info, handle_tools_list}
use fastmcp.Server.Listing.Laws.{values_by, Lists}
use fastmcp.Server.Registry.{
  Registration, tool, IsWellFormed, register, register_all, register-IsWellFormed, new-IsWellFormed,
}
use fastmcp.Server.Registry.History.{tools_list_history, keep_first, tool_names, latest_tool}
use fastmcp.Server.Dispatch.{dispatch}
use fastmcp.Server.Dispatch.Handlers.{handle_tools_call}
use fastmcp.Server.Dispatch.Replies.{IsAnswered, dispatch-IsAnswered}
use fastmcp.Server.Dispatch.Calls.{Reports, tools_call-Reports, tools_call_error}
use fastmcp.Tests.{demo_codec, demo_server, demo_world, call_of, greet}

dispatch-IsAnswered_example :
    IsAnswered
      (call_of (txt "ping") []).req
      (dispatch demo_codec demo_server (call_of (txt "ping") []) demo_world).0
dispatch-IsAnswered_example =
    dispatch-IsAnswered demo_codec demo_server (call_of (txt "ping") []) demo_world

abbrev set_level : Text
set_level = txt "logging/setLevel"

tools_call-Reports_example :
    Reports demo_codec true
      (greet.call (call_of (txt "tools/call") (txt "greet")) [] demo_world).0
      (handle_tools_call demo_codec demo_server
        (call_of (txt "tools/call") (txt "greet"))
        (txt "greet")
        demo_world).0
    × ((handle_tools_call demo_codec demo_server
          (call_of (txt "tools/call") (txt "greet"))
          (txt "greet")
          demo_world).1
        ≡ (greet.call (call_of (txt "tools/call") (txt "greet")) [] demo_world).1)
unfolding get text_eq
tools_call-Reports_example =
    tools_call-Reports demo_codec demo_server (call_of (txt "tools/call") (txt "greet"))
      (txt "greet") demo_world {p = record { name = txt "greet"; arguments = [] }} {tool = greet}
      refl refl

tools_call_error_example :
    (err_invalid_params ≡ err_invalid_params)
    × ((handle_tools_call demo_codec demo_server
          (call_of (txt "tools/call") (txt "nope"))
          (txt "nope")
          demo_world).1
        ≡ demo_world)
    × (((m : Text) × (demo_codec.call_tool_params (txt "nope") ≡ failed m))
        ⊎ ((p : CallToolParams) × (demo_codec.call_tool_params (txt "nope") ≡ done p)
            × (get p.name demo_server.tools ≡ none)))
unfolding handle_tools_call get text_eq
tools_call_error_example =
    tools_call_error demo_codec demo_server (call_of (txt "tools/call") (txt "nope")) (txt "nope")
      demo_world {e = new_error err_invalid_params (txt "unknown tool: nope")} refl

abbrev twice : List (Registration ℕ)
twice =
    tool (txt "greet") (txt "old") end none false greet.call
    ∷ tool (txt "greet") (txt "new") end none true greet.call
    ∷ []

tools_list_history_example :
    Lists
      (handle_tools_list (register_all twice (new (txt "demo") [])))
      (txt "tools")
      (values_by tool_info (latest_tool twice) (keep_first (tool_names twice)))
tools_list_history_example = tools_list_history (txt "demo") twice

abbrev first : Registration ℕ
first = tool (txt "greet") (txt "old") end none false greet.call

register-IsWellFormed_example : IsWellFormed (register first (new (txt "demo") []))
register-IsWellFormed_example =
    register-IsWellFormed first (new (txt "demo") []) (new-IsWellFormed (txt "demo"))
