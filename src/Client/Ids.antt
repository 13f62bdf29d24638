-- ===== src/Client/Ids.antt =====
-- client/client.go: no two requests of a client have the same id, as long as its counter does not wrap.
use fastmcp.Prelude.{
  ℕ, ◌+◌, ◌*◌, ◌^◌, ◌≤◌, ◌<◌, Text, txt, List, [], ◌∷◌, length, Option, none, some, lift, pure,
  ◌>>=◌, ◌>>◌, ◌≡◌, arith,
}
use fastmcp.Rpc.{Value}
use fastmcp.Client.{ClientMessage, Client, Transport, Connected, ClientCodec, new_client}
use fastmcp.Client.Requests.{
  uri_field, prompt_fields, prompt_ref, template_ref, completion_fields, or_failure, call_server,
  notify_server, remember, acknowledged, handshake_params, initialize, ping, list_client_tools,
  call_client_tool, list_client_resources, read_client_resource, subscribe_client,
  unsubscribe_client, list_client_prompts, get_client_prompt, complete_client_prompt,
  complete_client_resource, complete_ref,
}
use fastmcp.Client.Fresh.{
  recorded, AreApart, IsInjective, State, IsFresh, Moves, Advances, Advances-bind, Advances-lift,
  Advances-call_server, Advances-decoded_call, Advances-call_client_tool,
}

-- a call of one of the client's methods
pub data ClientCall : Type 0 where
  do_initialize do_ping do_list_tools do_list_resources do_list_prompts : ClientCall
  do_call_tool do_get_prompt : Text → Option Value → ClientCall
  do_read_resource do_subscribe do_unsubscribe : Text → ClientCall
  do_complete_prompt do_complete_resource : Text → Text → Text → ClientCall

module _ {W : Type 0} (codec : ClientCodec) (t : Transport W) where
  -- the state behind a call, whatever it answers
  unfoldable pub after_call : ClientCall → Connected W → Connected W
  unfolding initialize ping list_client_tools call_client_tool list_client_resources
      read_client_resource subscribe_client unsubscribe_client list_client_prompts get_client_prompt
      complete_client_prompt complete_client_resource
  after_call do_initialize s = (initialize codec t s).1
  after_call do_ping s = (ping codec t s).1
  after_call do_list_tools s = (list_client_tools codec t s).1
  after_call do_list_resources s = (list_client_resources codec t s).1
  after_call do_list_prompts s = (list_client_prompts codec t s).1
  after_call (do_call_tool name args) s = (call_client_tool codec t name args s).1
  after_call (do_get_prompt name args) s = (get_client_prompt codec t name args s).1
  after_call (do_read_resource uri) s = (read_client_resource codec t uri s).1
  after_call (do_subscribe uri) s = (subscribe_client codec t uri s).1
  after_call (do_unsubscribe uri) s = (unsubscribe_client codec t uri s).1
  after_call (do_complete_prompt name argument value) s =
      (complete_client_prompt codec t name argument value s).1
  after_call (do_complete_resource template argument value) s =
      (complete_client_resource codec t template argument value s).1

  abbrev pub after_calls : List ClientCall → Connected W → Connected W
  after_calls [] s = s
  after_calls (c ∷ cs) s = after_calls cs (after_call c s)

-- the ids that a call takes at most
abbrev cost : ClientCall → ℕ
cost (do_call_tool name args) = 2
cost c = 1

cost-le : (c : ClientCall) → cost c ≤ 2
cost-le (do_call_tool name args) = omega arith
cost-le c = omega arith

module _ {W : Type 0} (codec : ClientCodec) (inj : IsInjective codec) (t : Transport W) where
  Advances-notify_server :
      (method : Text) → Advances codec inj t 0 (notify_server codec (recorded t) method)
  unfolding notify_server
  Advances-notify_server method s b h = (omega arith, omega arith, h)

  Advances-initialize : Advances codec inj t 1 (initialize codec (recorded t))
  unfolding initialize
  Advances-initialize s b h =
      Advances-bind codec inj t 1 0
        (call_server codec (recorded t) (txt "initialize")
          (some (handshake_params codec (recorded t) s.client)))
        (λ raw. lift (or_failure (codec.initialize_json raw)) >>= λ res.
          remember codec (recorded t) res
          >> notify_server codec (recorded t) (txt "notifications/initialized")
          >> pure res)
        (Advances-call_server codec inj t (txt "initialize")
          (some (handshake_params codec (recorded t) s.client)))
        (λ raw.
          Advances-bind codec inj t 0 0 (lift (or_failure (codec.initialize_json raw)))
            (λ res.
              remember codec (recorded t) res
              >> notify_server codec (recorded t) (txt "notifications/initialized")
              >> pure res)
            (Advances-lift codec inj t (or_failure (codec.initialize_json raw)))
            (λ res s1 b1 h1.
              Advances-bind codec inj t 0 0
                (notify_server codec (recorded t) (txt "notifications/initialized")) (λ u. pure res)
                (Advances-notify_server (txt "notifications/initialized"))
                (λ u s2 b2 h2. (omega arith, omega arith, h2))
                (remember codec (recorded t) res s1).1 b1 h1))
        s b h

  Advances-acknowledged :
      (method : Text) (params : Option Value)
      → Advances codec inj t 1 (acknowledged codec (recorded t) method params)
  Advances-acknowledged method params =
      Advances-bind codec inj t 1 0 (call_server codec (recorded t) method params) (λ raw. pure tt)
        (Advances-call_server codec inj t method params)
        (λ raw s b h. (omega arith, omega arith, h))

  Moves-after_call :
      (c : ClientCall) (s : State codec inj t)
      → s.client.id_ctr + cost c < 2 ^ 64
      → IsFresh codec inj t s
      → Moves codec inj t (cost c) s (after_call codec (recorded t) c s)
  unfolding after_call ping list_client_tools list_client_resources read_client_resource
      subscribe_client unsubscribe_client list_client_prompts get_client_prompt
      complete_client_prompt complete_client_resource complete_ref
  Moves-after_call do_initialize s b h = Advances-initialize s (omega arith) h
  Moves-after_call do_ping s b h = Advances-acknowledged (txt "ping") none s (omega arith) h
  Moves-after_call do_list_tools s b h =
      Advances-decoded_call codec inj t codec.tools_json (txt "tools/list") none s (omega arith) h
  Moves-after_call do_list_resources s b h =
      Advances-decoded_call codec inj t codec.resources_json (txt "resources/list") none s
        (omega arith) h
  Moves-after_call do_list_prompts s b h =
      Advances-decoded_call codec inj t codec.prompts_json (txt "prompts/list") none s (omega arith)
        h
  Moves-after_call (do_call_tool name args) s b h =
      Advances-call_client_tool codec inj t name args s b h
  Moves-after_call (do_get_prompt name args) s b h =
      Advances-decoded_call codec inj t codec.prompt_json (txt "prompts/get")
        (some (prompt_fields name args)) s (omega arith) h
  Moves-after_call (do_read_resource uri) s b h =
      Advances-decoded_call codec inj t codec.contents_json (txt "resources/read")
        (some (uri_field uri)) s (omega arith) h
  Moves-after_call (do_subscribe uri) s b h =
      Advances-acknowledged (txt "resources/subscribe") (some (uri_field uri)) s (omega arith) h
  Moves-after_call (do_unsubscribe uri) s b h =
      Advances-acknowledged (txt "resources/unsubscribe") (some (uri_field uri)) s (omega arith) h
  Moves-after_call (do_complete_prompt name argument value) s b h =
      Advances-decoded_call codec inj t codec.completion_json (txt "completion/complete")
        (some (completion_fields (prompt_ref name) argument value)) s (omega arith) h
  Moves-after_call (do_complete_resource template argument value) s b h =
      Advances-decoded_call codec inj t codec.completion_json (txt "completion/complete")
        (some (completion_fields (template_ref template) argument value)) s (omega arith) h

  IsFresh-after_calls :
      (cs : List ClientCall) (s : State codec inj t)
      → s.client.id_ctr + 2 * length cs < 2 ^ 64
      → IsFresh codec inj t s
      → IsFresh codec inj t (after_calls codec (recorded t) cs s)
  IsFresh-after_calls [] s b h = h
  IsFresh-after_calls (c ∷ cs) s b h =
      let few = cost-le c in
      let k = Moves-after_call c s (omega arith) h in
      IsFresh-after_calls cs (after_call codec (recorded t) c s) (omega arith) k.2

  -- A new client, with any options that leave its counter alone, makes any calls of its methods, fewer than
  -- 2^63, over any transport: where the encoding of ids is injective, no two of the requests that it sends
  -- have the same id, whatever fails.
  pub after_calls-AreApart :
      (opts : List (Client (W × List ClientMessage) → Client (W × List ClientMessage)))
      (cs : List ClientCall) (w : W)
      → (new_client opts).id_ctr ≡ 0
      → length cs < 2 ^ 63
      → AreApart
          (after_calls codec
            (recorded t)
            cs
            (record { client = new_client opts; world = (w, []) })).world.1
  after_calls-AreApart opts cs w zeroed few =
      (IsFresh-after_calls cs (record { client = new_client opts; world = (w, []) }) (omega arith)
        (tt, tt)).1
