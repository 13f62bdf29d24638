-- ===== src/Client.antt =====
-- client/client.go: a client of a server, over a transport. The transport, encoding/json and the user's
-- handlers are parameters; a client's state is its own fields and the world of its transport and handlers.
-- Empty raw JSON is nil.
pub mod Requests
pub mod Fresh
pub mod Ids
use fastmcp.Prelude.{
  ℕ, ◌+◌, ◌%◌, ◌^◌, Text, txt, text_eq, is_empty, Bool, false, List, [], ◌∷◌, ◌++◌, Option, none,
  some, Result, done, failed, Outcome, ok, err, Exec, pure, raise, lift, catch, ◌>>=◌, ◌>>◌,
  if◌then◌else◌,
}
use fastmcp.Prelude.Int.{ℤ}
use fastmcp.Rpc.{Value, str, Error, ResourceContents, Content, PromptArgument, PromptMessage}
use fastmcp.Rpc.{bool, obj, Fields, end, field, jsonrpc_version, new_error}
use fastmcp.Rpc.Codes.{err_method_not_found, err_internal}
use fastmcp.Server.{default_version, protocol_version}

-- message of client/transport.go
pub record ClientMessage : Type 0 where
  pub jsonrpc : Text
  pub id : Text
  pub method : Text
  pub params : Text
  pub result : Text
  pub error : Option Error

pub record Root : Type 0 where
  pub uri : Text
  pub name : Text

pub record ServerInfo : Type 0 where
  pub name : Text
  pub version : Text

pub record Client (W : Type 0) : Type 0 where
  pub name : Text
  pub version : Text
  pub sampling_handler : Option (Text → Exec W Text Value)
  pub roots_handler : Option (Exec W Text (List Root))
  pub roots : Option (List Root)
  pub notify_handler : Option (Text → Text → W → W)
  -- the bits of an int64
  pub id_ctr : ℕ
  pub server_info : ServerInfo
  pub server_capabilities : Text
  pub server_protocol : Text

pub record Transport (W : Type 0) : Type 0 where
  pub round_trip : ClientMessage → Exec W Text ClientMessage
  pub send_note : ClientMessage → Exec W Text (Unit {0})

pub data ClientError : Type 0 where
  rpc_error : Error → ClientError
  failure : Text → ClientError

pub record Connected (W : Type 0) : Type 0 where
  pub client : Client W
  pub world : W

pub record InitializeResult : Type 0 where
  pub negotiated : Text
  pub capabilities : Text
  pub info : ServerInfo
  pub instructions : Text

pub record ClientTool : Type 0 where
  pub name : Text
  pub description : Text
  pub input_schema : Text
  pub output_schema : Text

pub record CallToolResult : Type 0 where
  pub content : List Content
  pub structured_content : Text
  pub is_error : Bool

pub record ClientResource : Type 0 where
  pub uri : Text
  pub name : Text
  pub description : Text
  pub mime_type : Text

pub record ClientPrompt : Type 0 where
  pub name : Text
  pub description : Text
  pub arguments : List PromptArgument

pub record GetPromptResult : Type 0 where
  pub description : Text
  pub messages : List PromptMessage

pub record CompletionResult : Type 0 where
  pub values : List Text
  pub total : ℤ
  pub has_more : Bool

pub record ClientCodec : Type 0 where
  pub marshal : Value → Result Text
  pub marshal_id : ℕ → Result Text
  pub roots_value : List Root → Value
  pub id_value : ℕ → Value
  pub initialize_json : Text → Result InitializeResult
  pub tools_json : Text → Result (List ClientTool)
  pub call_tool_json : Text → Result CallToolResult
  pub resources_json : Text → Result (List ClientResource)
  pub contents_json : Text → Result (List ResourceContents)
  pub prompts_json : Text → Result (List ClientPrompt)
  pub prompt_json : Text → Result GetPromptResult
  pub completion_json : Text → Result CompletionResult

abbrev pub or_internal : {A : Type 0} → Result A → Outcome Error A
or_internal (done a) = ok a
or_internal (failed m) = err (new_error err_internal m)

-- serveRequest of client/transport.go: the message that is written, where nothing panics
abbrev pub reply_to : ClientMessage → Outcome Error Text → Option ClientMessage
reply_to m (ok result) = some (record {
  jsonrpc = jsonrpc_version;
  id = m.id;
  method = [];
  params = [];
  result = result;
  error = none;
})
reply_to m (err e) = some (record {
  jsonrpc = jsonrpc_version;
  id = m.id;
  method = [];
  params = [];
  result = [];
  error = some e;
})
reply_to m (Outcome.panic p) = none

module _ {W : Type 0} where
  abbrev pub with_client_info : Text → Text → Client W → Client W
  with_client_info name version c = record c { name = name; version = version }

  abbrev pub with_sampling_handler : (Text → Exec W Text Value) → Client W → Client W
  with_sampling_handler h c = record c { sampling_handler = some h }

  abbrev pub with_roots : Option (List Root) → Client W → Client W
  with_roots roots c = record c { roots = roots }

  abbrev pub with_roots_handler : Exec W Text (List Root) → Client W → Client W
  with_roots_handler h c = record c { roots_handler = some h }

  abbrev pub with_notification_handler : (Text → Text → W → W) → Client W → Client W
  with_notification_handler h c = record c { notify_handler = some h }

  abbrev pub configured : List (Client W → Client W) → Client W → Client W
  configured [] c = c
  configured (opt ∷ opts) c = configured opts (opt c)

  unfoldable pub new_client : List (Client W → Client W) → Client W
  new_client opts = configured opts (record {
    name = txt "fastmcp-client";
    version = default_version;
    sampling_handler = none;
    roots_handler = none;
    roots = none;
    notify_handler = none;
    id_ctr = 0;
    server_info = record { name = []; version = [] };
    server_capabilities = [];
    server_protocol = [];
  })

  -- handleNotification
  unfoldable pub handle_notification : Client W → Text → Text → W → W
  handle_notification c method params w = elim c.notify_handler [
    | none ↦ w
    | some h ↦ h method params w
  ]

  abbrev pub or_internal_error : {A : Type 0} → Exec W Text A → Exec W Error A
  or_internal_error m = catch m (λ e. raise (new_error err_internal e)) pure

  abbrev pub sample : ClientCodec → Option (Text → Exec W Text Value) → Text → Exec W Error Text
  sample codec none params =
      raise (new_error err_method_not_found (txt "client has no sampling handler"))
  sample codec (some h) params = do
    res ← or_internal_error (h params)
    lift (or_internal (codec.marshal res))

  abbrev pub list_roots : Client W → Option (Exec W Text (List Root)) → Exec W Error (List Root)
  list_roots c none = elim c.roots [ none ↦ pure [] | some rs ↦ pure rs ]
  list_roots c (some h) = or_internal_error h

  abbrev pub answer_roots : ClientCodec → Client W → Exec W Error Text
  answer_roots codec c = do
    rs ← list_roots c c.roots_handler
    lift (or_internal (codec.marshal (codec.roots_value rs)))

  -- handleServerRequest: the raw result, or an error
  unfoldable pub handle_server_request : ClientCodec → Client W → Text → Text → Exec W Error Text
  handle_server_request codec c method params =
      if text_eq method (txt "ping")
      then pure (txt "{}")
      else if text_eq method (txt "sampling/createMessage")
      then sample codec c.sampling_handler params
      else if text_eq method (txt "roots/list")
      then answer_roots codec c
      else raise (new_error err_method_not_found (txt "method not found: " ++ method))

  unfoldable pub serve_request :
      ClientCodec → Client W → ClientMessage → W → Option ClientMessage × W
  unfolding handle_server_request
  serve_request codec c m w =
      let (r, w') = handle_server_request codec c m.method m.params w in (reply_to m r, w')
