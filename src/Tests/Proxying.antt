-- ===== src/Tests/Proxying.antt =====
-- Runs of a proxy.
use fastmcp.Prelude.{ℕ, Text, txt, text_eq, true, false, [], ◌∷◌, some, done, ◌≡◌, refl, Slot}
use fastmcp.Rpc.{obj, end, new_text_content}
use fastmcp.Session.{World, new_session}
use fastmcp.Server.Codec.{Codec}
use fastmcp.Server.Dispatch.Handlers.{handle_tools_call}
use fastmcp.Client.{ClientCodec, ClientError, Connected, ClientTool, new_client}
use fastmcp.Client.Requests.{call_client_tool}
use fastmcp.Proxy.{
  with_name_prefix, default_config, proxy_config, ProxyConfig, replace_from, join_text_content,
  with_name_prefix,
}
use fastmcp.Proxy.Forward.{assemble}
use fastmcp.Proxy.Relays.{Relays, proxied_call-Relays}
use fastmcp.Tests.{demo_codec, call_of}
use fastmcp.Tests.Mounting.{demo_wire}
use fastmcp.Tests.Calling.{one_byte, echo}

replaced : replace_from 0 (txt "{id}") (txt "7") (txt "users://{id}/{id}") ≡ txt "users://7/7"
unfolding replace_from
replaced = refl

lines :
    join_text_content
      (new_text_content (txt "a") ∷ new_text_content [] ∷ new_text_content (txt "b") ∷ [])
    ≡ b'a' ∷ 10 ∷ b'b' ∷ []
unfolding join_text_content
lines = refl

abbrev greets : ClientCodec
greets = record one_byte {
  call_tool_json = λ s. done (record {
    content = new_text_content (txt "hello") ∷ [];
    structured_content = [];
    is_error = false;
  });
}

abbrev front : Codec
front = record demo_codec {
  call_tool_params = λ s. done (record { name = s; arguments = txt "{}" });
}

-- the proxy's world is the client's state
abbrev in_user : Slot (World (Connected ℕ)) (Connected ℕ)
in_user = record {
  read = λ w. w.user;
  write = λ a w. record w { user = a };
  read-write = λ a w. refl;
  write-write = λ a b w. refl;
}

abbrev unused : ClientError → Text
unused e = []

abbrev prefixed : ProxyConfig
prefixed = proxy_config (with_name_prefix (txt "p_") ∷ []) default_config

abbrev greet_tool : ClientTool
greet_tool = record { name = txt "greet"; description = []; input_schema = []; output_schema = [] }

abbrev idle_world : World (Connected ℕ)
idle_world = record {
  store = λ i. new_session true;
  sessions = [];
  user = record { client = new_client []; world = 0 };
}

proxied_call-Relays_example :
    Relays unused
      (call_client_tool greets echo (txt "greet") (some (obj end)) idle_world.user).0
      (handle_tools_call front
        (assemble greets echo demo_wire unused in_user prefixed (greet_tool ∷ []) [] [])
        (call_of (txt "tools/call") (txt "p_greet"))
        (txt "p_greet")
        idle_world).0
    × ((handle_tools_call front
          (assemble greets echo demo_wire unused in_user prefixed (greet_tool ∷ []) [] [])
          (call_of (txt "tools/call") (txt "p_greet"))
          (txt "p_greet")
          idle_world).1
        ≡ record idle_world {
          user = (call_client_tool greets echo (txt "greet") (some (obj end)) idle_world.user).1;
        })
unfolding text_eq
proxied_call-Relays_example =
    proxied_call-Relays greets echo demo_wire unused in_user front prefixed [] [] greet_tool [] []
      (call_of (txt "tools/call") (txt "p_greet")) (txt "p_greet") idle_world
      (record { name = txt "p_greet"; arguments = txt "{}" }) end refl tt refl refl refl refl
