-- ===== src/Mount/Delegate.antt =====
-- mount/delegate.go: requests to a server through its HTTP handler, in the process. Encoding a request and
-- decoding answers, base64 and the printing of a number are parameters, the record Wire.
pub mod Faithful
use fastmcp.Prelude.{
  Text, txt, text_eq, is_empty, Bool, true, false, List, [], ◌∷◌, ◌++◌, Option, none, some, Result,
  done, failed, Outcome, ok, err, panic, Exec, pure, raise, lift, catch, ◌>>=◌, if◌then◌else◌,
}
use fastmcp.Prelude.Dict.{Dict}
use fastmcp.Prelude.Int.{ℤ}
use fastmcp.Rpc.{Value, contents, Fields, Content, PromptArgument, PromptMessage}
use fastmcp.Session.{World}
use fastmcp.Server.{Server}
use fastmcp.Server.Codec.{Codec}
use fastmcp.Http.{HttpCodec, HttpAnswer, http_handler}

pub record RpcError : Type 0 where
  pub code : ℤ
  pub message : Text

pub record ToolInfo : Type 0 where
  pub name : Text
  pub description : Text

-- of a resource or, with its template for the URI, of a template
pub record ResourceInfo : Type 0 where
  pub uri : Text
  pub name : Text
  pub description : Text
  pub mime_type : Text

pub record PromptInfo : Type 0 where
  pub name : Text
  pub description : Text
  pub arguments : List PromptArgument

-- the parameters that a request carries; a nil map is `none`
pub data CallParams : Type 0 where
  no_params : CallParams
  tool_params : Text → Option Fields → CallParams
  uri_params : Text → CallParams
  prompt_params : Text → Dict Text → CallParams

pub record Wire : Type 0 where
  pub encode_request : Text → CallParams → Result Text
  -- the raw result of an answer, and its error
  pub answer_json : HttpAnswer → Result (Text × Option RpcError)
  pub tools_json : Text → Result (List ToolInfo)
  pub resources_json : Text → Result (List ResourceInfo)
  pub templates_json : Text → Result (List ResourceInfo)
  pub prompts_json : Text → Result (List PromptInfo)
  -- the content and isError
  pub tool_result_json : Text → Result (List Content × Bool)
  -- text and blob of each item
  pub contents_json : Text → Result (List (Text × Text))
  pub messages_json : Text → Result (List PromptMessage)
  -- the arguments of a tool that takes a map
  pub arguments_json : Text → Result Fields
  pub base64_decode : Text → Result Text
  pub decimal : ℤ → Text

-- a decoder's error, with what was decoded
abbrev pub or_decoding : {A : Type 0} → Text → Result A → Outcome Text A
or_decoding what (failed m) = err (txt "mount: " ++ (what ++ (txt ": " ++ m)))
or_decoding what (done a) = ok a

-- contentText
unfoldable pub content_text : List Content → Text
content_text [] = []
content_text (c ∷ cs) =
    if text_eq c.type (txt "text") then c.text ++ content_text cs else content_text cs

-- the end of callTool
abbrev pub reported : List Content → Bool → Outcome Text Value
reported cs true = err (content_text cs)
reported cs false = ok (contents cs)

module _ {V : Type 0} (lib : Codec) (json : HttpCodec) (wire : Wire) (child : Server V) where
  abbrev pub result_or_error : Text → Text × Option RpcError → Outcome Text Text
  result_or_error method (raw, none) = ok raw
  result_or_error method (raw, some e) = err (
      txt "mount: child "
      ++ (method ++ (txt " error " ++ (wire.decimal e.code ++ (txt ": " ++ e.message)))))

  unfoldable pub call : Text → CallParams → Exec (World V) Text Text
  unfolding http_handler
  call method params = do
    body ← lift (
        or_decoding (txt "encoding " ++ (method ++ txt " request"))
          (wire.encode_request method params))
    answer ← catch (http_handler lib json child (txt "POST") (done body)) (λ e. absurd e) pure
    resp ←
        lift
          (or_decoding (txt "decoding " ++ (method ++ txt " response")) (wire.answer_json answer))
    lift (result_or_error method resp)

  unfoldable pub list_tools : Exec (World V) Text (List ToolInfo)
  unfolding call
  list_tools = do
    raw ← call (txt "tools/list") no_params
    lift (or_decoding (txt "decoding tools list") (wire.tools_json raw))

  unfoldable pub list_resources : Exec (World V) Text (List ResourceInfo)
  unfolding call
  list_resources = do
    raw ← call (txt "resources/list") no_params
    lift (or_decoding (txt "decoding resources list") (wire.resources_json raw))

  unfoldable pub list_templates : Exec (World V) Text (List ResourceInfo)
  unfolding call
  list_templates = do
    raw ← call (txt "resources/templates/list") no_params
    lift (or_decoding (txt "decoding resource templates list") (wire.templates_json raw))

  unfoldable pub list_prompts : Exec (World V) Text (List PromptInfo)
  unfolding call
  list_prompts = do
    raw ← call (txt "prompts/list") no_params
    lift (or_decoding (txt "decoding prompts list") (wire.prompts_json raw))

  unfoldable pub call_tool : Text → Option Fields → Exec (World V) Text Value
  unfolding call content_text
  call_tool name args = do
    raw ← call (txt "tools/call") (tool_params name args)
    out ← lift (or_decoding (txt "decoding tool result") (wire.tool_result_json raw))
    lift (reported out.0 out.1)

  -- the first item: its blob if it has one, else its text
  abbrev pub first_body : List (Text × Text) → Outcome Text Text
  first_body [] = ok []
  first_body ((text, blob) ∷ items) =
      if is_empty blob
      then ok text
      else or_decoding (txt "decoding resource blob") (wire.base64_decode blob)

  unfoldable pub read_resource : Text → Exec (World V) Text Text
  unfolding call
  read_resource uri = do
    raw ← call (txt "resources/read") (uri_params uri)
    items ← lift (or_decoding (txt "decoding resource contents") (wire.contents_json raw))
    lift (first_body items)

  unfoldable pub get_prompt : Text → Dict Text → Exec (World V) Text (List PromptMessage)
  unfolding call
  get_prompt name args = do
    raw ← call (txt "prompts/get") (prompt_params name args)
    lift (or_decoding (txt "decoding prompt messages") (wire.messages_json raw))
