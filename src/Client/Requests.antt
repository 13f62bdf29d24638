-- ===== src/Client/Requests.antt =====
-- client/client.go: the requests of a client. A context that ends is an error of the transport.
use fastmcp.Prelude.{
  ℕ, ◌+◌, ◌%◌, ◌^◌, Text, txt, Bool, false, List, [], Option, none, some, Result, done, failed,
  is_some, ◌||◌, Outcome, ok, err, panic, Exec, pure, lift, ◌>>=◌, ◌>>◌, if◌then◌else◌,
}
use fastmcp.Rpc.{Value, str, bool, obj, Fields, end, field, ResourceContents, jsonrpc_version}
use fastmcp.Server.{protocol_version}
use fastmcp.Client.{
  ClientMessage, Client, Transport, ClientError, rpc_error, failure, Connected, InitializeResult,
  ClientTool, CallToolResult, ClientResource, ClientPrompt, GetPromptResult, CompletionResult,
  ClientCodec,
}

abbrev pub or_failure : {A : Type 0} → Result A → Outcome ClientError A
or_failure (done a) = ok a
or_failure (failed m) = err (failure m)

-- an error that the server answered with, or its result
abbrev pub raw_result : ClientMessage → Outcome ClientError Text
raw_result resp = elim resp.error [ some e ↦ err (rpc_error e) | none ↦ ok resp.result ]

abbrev pub request_message : Text → Text → Text → ClientMessage
request_message id method params = record {
  jsonrpc = jsonrpc_version;
  id = id;
  method = method;
  params = params;
  result = [];
  error = none;
}

abbrev pub uri_field : Text → Value
uri_field uri = obj (field (txt "uri") (str uri) end)

abbrev pub field_when : Bool → Text → Value → Fields → Fields
field_when present name v fs = if present then field name v fs else fs

abbrev pub field_given : Text → Option Value → Fields → Fields
field_given name none fs = fs
field_given name (some v) fs = field name v fs

-- the capabilities that Initialize declares
unfoldable pub capabilities_of : {W : Type 0} → Client W → Value
capabilities_of c = obj (
    field_when (is_some c.roots || is_some c.roots_handler) (txt "roots")
      (obj (field (txt "listChanged") (bool false) end))
      (field_when (is_some c.sampling_handler) (txt "sampling") (obj end) end))

abbrev pub info_of : {W : Type 0} → Client W → Value
info_of c = obj (field (txt "name") (str c.name) (field (txt "version") (str c.version) end))

abbrev pub prompt_fields : Text → Option Value → Value
prompt_fields name args =
    obj (field (txt "name") (str name) (field_given (txt "arguments") args end))

abbrev pub prompt_ref : Text → Fields
prompt_ref name = field (txt "type") (str (txt "ref/prompt")) (field (txt "name") (str name) end)

abbrev pub template_ref : Text → Fields
template_ref template =
    field (txt "type") (str (txt "ref/resource")) (field (txt "uri") (str template) end)

abbrev pub completion_fields : Fields → Text → Text → Value
completion_fields ref argument value = obj (
    field (txt "ref") (obj ref) (
      field (txt "argument")
        (obj (field (txt "name") (str argument) (field (txt "value") (str value) end))) end))

abbrev pub failed_over : {A : Type 0} → Outcome Text A → Outcome ClientError A
failed_over (ok a) = ok a
failed_over (err e) = err (failure e)
failed_over (panic p) = panic p

-- an action on the client's world
abbrev pub over : {W A : Type 0} → Exec W Text A → Exec (Connected W) ClientError A
over m s = let (r, w) = m s.world in (failed_over r, record s { world = w })

module _ {W : Type 0} (codec : ClientCodec) (t : Transport W) where
  -- nextID
  unfoldable pub next_id : Exec (Connected W) ClientError ℕ
  next_id s =
      let id = (s.client.id_ctr + 1) % 2 ^ 64 in
      (ok id, record s { client = record s.client { id_ctr = id } })

  abbrev pub raw_params : Option Value → Outcome ClientError Text
  raw_params none = ok []
  raw_params (some v) = or_failure (codec.marshal v)

  -- call, with the id that nextID gave
  unfoldable pub call_with : ℕ → Text → Option Value → Exec (Connected W) ClientError Text
  call_with id method params = do
    id_raw ← lift (or_failure (codec.marshal_id id))
    raw ← lift (raw_params params)
    resp ← over (t.round_trip (request_message id_raw method raw))
    lift (raw_result resp)

  unfoldable pub call_server : Text → Option Value → Exec (Connected W) ClientError Text
  unfolding next_id call_with
  call_server method params = do id ← next_id; call_with id method params

  -- Client.notify, without parameters
  unfoldable pub notify_server : Text → Exec (Connected W) ClientError (Unit {0})
  notify_server method = over (t.send_note (request_message [] method []))

  abbrev pub remember : InitializeResult → Exec (Connected W) ClientError (Unit {0})
  remember res s = (
    ok tt,
    record s {
      client = record s.client {
        server_info = res.info;
        server_capabilities = res.capabilities;
        server_protocol = res.negotiated;
      };
    },
  )

  abbrev pub configuration : Exec (Connected W) ClientError (Client W)
  configuration s = (ok s.client, s)

  abbrev pub handshake_params : Client W → Value
  handshake_params c = obj (
      field (txt "protocolVersion") (str protocol_version)
        (field (txt "capabilities") (capabilities_of c) (field (txt "clientInfo") (info_of c) end)))

  unfoldable pub initialize : Exec (Connected W) ClientError InitializeResult
  unfolding call_server notify_server capabilities_of
  initialize = do
    c ← configuration
    raw ← call_server (txt "initialize") (some (handshake_params c))
    res ← lift (or_failure (codec.initialize_json raw))
    remember res
    notify_server (txt "notifications/initialized")
    pure res

  -- a request whose result is decoded
  abbrev pub decoded_call :
      {A : Type 0} → (Text → Result A) → Text → Option Value → Exec (Connected W) ClientError A
  decoded_call decode method params = do
    raw ← call_server method params
    lift (or_failure (decode raw))

  abbrev pub acknowledged : Text → Option Value → Exec (Connected W) ClientError (Unit {0})
  acknowledged method params = do raw ← call_server method params; pure tt

  unfoldable pub ping : Exec (Connected W) ClientError (Unit {0})
  unfolding call_server
  ping = acknowledged (txt "ping") none

  unfoldable pub list_client_tools : Exec (Connected W) ClientError (List ClientTool)
  unfolding call_server
  list_client_tools = decoded_call codec.tools_json (txt "tools/list") none

  abbrev pub call_params : Text → Option Value → ℕ → Value
  call_params name args token = obj (
      field (txt "name") (str name) (
        field (txt "_meta") (obj (field (txt "progressToken") (codec.id_value token) end))
          (field_given (txt "arguments") args end)))

  -- CallTool: the progress token is an id of its own
  unfoldable pub call_client_tool :
      Text → Option Value → Exec (Connected W) ClientError CallToolResult
  unfolding next_id call_server
  call_client_tool name args = do
    token ← next_id
    decoded_call codec.call_tool_json (txt "tools/call") (some (call_params name args token))

  unfoldable pub list_client_resources : Exec (Connected W) ClientError (List ClientResource)
  unfolding call_server
  list_client_resources = decoded_call codec.resources_json (txt "resources/list") none

  unfoldable pub read_client_resource :
      Text → Exec (Connected W) ClientError (List ResourceContents)
  unfolding call_server
  read_client_resource uri =
      decoded_call codec.contents_json (txt "resources/read") (some (uri_field uri))

  unfoldable pub subscribe_client : Text → Exec (Connected W) ClientError (Unit {0})
  unfolding call_server
  subscribe_client uri = acknowledged (txt "resources/subscribe") (some (uri_field uri))

  unfoldable pub unsubscribe_client : Text → Exec (Connected W) ClientError (Unit {0})
  unfolding call_server
  unsubscribe_client uri = acknowledged (txt "resources/unsubscribe") (some (uri_field uri))

  unfoldable pub list_client_prompts : Exec (Connected W) ClientError (List ClientPrompt)
  unfolding call_server
  list_client_prompts = decoded_call codec.prompts_json (txt "prompts/list") none

  -- GetPrompt; the arguments are a map of strings as a value, or nil
  unfoldable pub get_client_prompt :
      Text → Option Value → Exec (Connected W) ClientError GetPromptResult
  unfolding call_server
  get_client_prompt name args =
      decoded_call codec.prompt_json (txt "prompts/get") (some (prompt_fields name args))

  -- complete
  unfoldable pub complete_ref :
      Fields → Text → Text → Exec (Connected W) ClientError CompletionResult
  unfolding call_server
  complete_ref ref argument value =
      decoded_call codec.completion_json (txt "completion/complete")
        (some (completion_fields ref argument value))

  unfoldable pub complete_client_prompt :
      Text → Text → Text → Exec (Connected W) ClientError CompletionResult
  unfolding complete_ref
  complete_client_prompt name argument value = complete_ref (prompt_ref name) argument value

  unfoldable pub complete_client_resource :
      Text → Text → Text → Exec (Connected W) ClientError CompletionResult
  unfolding complete_ref
  complete_client_resource template argument value =
      complete_ref (template_ref template) argument value
