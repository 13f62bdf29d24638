-- ===== src/Server/Codec.antt =====
-- What the handlers take from encoding/json and encoding/base64: the decoders of each method's
-- parameter object, json.Marshal and EncodeToString. An error is its text.
use fastmcp.Prelude.{Text, Result}
use fastmcp.Prelude.Dict.{Dict}
use fastmcp.Rpc.{Value}

pub record CallToolParams : Type 0 where
  pub name : Text
  -- the raw message
  pub arguments : Text

pub record GetPromptParams : Type 0 where
  pub name : Text
  pub arguments : Dict Text

pub record Ref : Type 0 where
  pub type : Text
  pub name : Text
  pub uri : Text

pub record Argument : Type 0 where
  pub name : Text
  pub value : Text

pub record CompleteParams : Type 0 where
  pub ref : Ref
  pub argument : Argument

pub record Codec : Type 0 where
  -- the member `protocolVersion`
  pub initialize_params : Text → Result Text
  pub call_tool_params : Text → Result CallToolParams
  -- the member `uri` of resources/read, subscribe and unsubscribe
  pub uri_params : Text → Result Text
  pub get_prompt_params : Text → Result GetPromptParams
  pub complete_params : Text → Result CompleteParams
  pub marshal : Value → Result Text
  pub base64 : Text → Text
