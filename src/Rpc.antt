-- ===== src/Rpc.antt =====
-- jsonrpc.go, content.go, prompt.go: the messages, and the dynamic values that this package puts
-- into an `any`.
pub mod Codes
pub mod Contents
use fastmcp.Prelude.{ℕ, Text, txt, is_empty, Bool, List, [], ◌∷◌, Option, none, some}
use fastmcp.Prelude.Int.{ℤ}

-- content_extra.go; an embedded resource
pub record ResourceContents : Type 0 where
  pub uri : Text
  pub mime_type : Text
  pub text : Text
  pub blob : Text

-- a float64 is kept by its bits
pub record ContentAnnotations : Type 0 where
  pub audience : List Text
  pub priority : ℕ

pub record Content : Type 0 where
  pub type : Text
  pub text : Text
  pub content_data : Text
  pub mime_type : Text
  pub uri : Text
  pub name : Text
  pub resource : Option ResourceContents
  pub annotations : Option ContentAnnotations

pub record PromptMessage : Type 0 where
  pub role : Text
  pub content : Content

pub record PromptArgument : Type 0 where
  pub name : Text
  pub description : Text
  pub required : Bool

-- Go's `any`. A map is its fields; `other` is a value of a type of the caller's own.
mutual
  pub data Value : Type 0 where
    null : Value
    bool : Bool → Value
    int : ℤ → Value
    str : Text → Value
    strs : List Text → Value
    arr : Values → Value
    obj : Fields → Value
    content : Content → Value
    contents : List Content → Value
    messages : List PromptMessage → Value
    arguments : List PromptArgument → Value
    other : ℕ → Value

  pub data Values : Type 0 where
    nil : Values
    item : Value → Values → Values

  pub data Fields : Type 0 where
    end : Fields
    field : Text → Value → Fields → Fields

pub record Error : Type 0 where
  pub code : ℤ
  pub message : Text
  pub error_data : Value

pub record Request : Type 0 where
  pub jsonrpc : Text
  pub id : Text
  pub method : Text
  pub params : Text

pub record Response : Type 0 where
  pub jsonrpc : Text
  pub id : Text
  pub result : Value
  pub error : Option Error

pub record Notification : Type 0 where
  pub jsonrpc : Text
  pub method : Text
  pub params : Value

abbrev pub jsonrpc_version : Text
jsonrpc_version = txt "2.0"

abbrev pub is_notification : Request → Bool
is_notification r = is_empty r.id

abbrev pub new_error : ℤ → Text → Error
new_error code msg = record { code = code; message = msg; error_data = null }

abbrev pub result_response : Text → Value → Response
result_response id result = record {
  jsonrpc = jsonrpc_version;
  id = id;
  result = result;
  error = none;
}

abbrev pub error_response : Text → Error → Response
error_response id e = record { jsonrpc = jsonrpc_version; id = id; result = null; error = some e }

abbrev pub new_text_content : Text → Content
new_text_content text = record {
  type = txt "text";
  text = text;
  content_data = [];
  mime_type = [];
  uri = [];
  name = [];
  resource = none;
  annotations = none;
}
