-- ===== src/Tests/Calling.antt =====
-- Runs of the client.
use fastmcp.Prelude.{ℕ, txt, [], ◌∷◌, List, length, none, done, failed, ok, ◌≡◌, refl, arith}
use fastmcp.Rpc.{null}
use fastmcp.Client.{Transport, ClientCodec, ClientMessage, new_client, Connected}
use fastmcp.Client.Fresh.{AreApart, IsInjective, recorded}
use fastmcp.Client.Ids.{
  ClientCall, do_ping, do_call_tool, after_call, after_calls, after_calls-AreApart,
}

-- an id is one byte, and no answer decodes
abbrev pub one_byte : ClientCodec
one_byte = record {
  marshal = λ v. done (txt "{}");
  marshal_id = λ k. done (k ∷ []);
  roots_value = λ rs. null;
  id_value = λ k. null;
  initialize_json = λ s. failed [];
  tools_json = λ s. failed [];
  call_tool_json = λ s. failed [];
  resources_json = λ s. failed [];
  contents_json = λ s. failed [];
  prompts_json = λ s. failed [];
  prompt_json = λ s. failed [];
  completion_json = λ s. failed [];
}

one_byte-IsInjective : IsInjective one_byte
one_byte-IsInjective j k s a b e f = cc (e, f)

-- a server that gives each message back
abbrev pub echo : Transport ℕ
echo = record { round_trip = λ m n. (ok m, n); send_note = λ m n. (ok tt, n) }

abbrev three_calls : List ClientCall
three_calls = do_ping ∷ do_call_tool (txt "greet") none ∷ do_ping ∷ []

abbrev start : Connected (ℕ × List ClientMessage)
start = record { client = new_client []; world = (0, []) }

ids : length (after_calls one_byte (recorded echo) three_calls start).world.1 ≡ 3
unfolding after_call new_client
ids = refl

after_calls-AreApart_example :
    AreApart
      (after_calls one_byte
        (recorded echo)
        three_calls
        (record { client = new_client []; world = (0, []) })).world.1
unfolding new_client
after_calls-AreApart_example =
    after_calls-AreApart one_byte one_byte-IsInjective echo [] three_calls 0 refl (omega arith)
