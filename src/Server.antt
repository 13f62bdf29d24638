-- ===== src/Server.antt =====
-- server.go, tool.go, resource.go, prompt.go, completion.go: the registries of a server and the
-- operations that register. A user's handler is an action on the world: it may write to sessions
-- and keep state of its own, return an error, or panic.
pub mod Codec
pub mod Logging
pub mod Registry
pub mod Listing
pub mod Template
pub mod Dispatch
use fastmcp.Prelude.{
  ℕ, Text, txt, text_eq, Bool, false, true, List, [], ◌∷◌, ◌++◌, Option, none, some, Exec, Outcome,
  if◌then◌else◌,
}
use fastmcp.Prelude.Dict.{Dict, get, put, has}
use fastmcp.Rpc.{Value, Fields, Request, PromptArgument, PromptMessage}
use fastmcp.Session.{World}
use fastmcp.Server.Template.{Piece, compile_uri_template}

-- Where the notifications of a request go: to a session, or nowhere (a POST).
pub data Sender : Type 0 where
  discard : Sender
  to_session : ℕ → Sender

pub record Context : Type 0 where
  pub req : Request
  pub send : Sender
  pub conn : Option ℕ
  pub progress_token : Text

-- What a handler given by the user does; its error is the text of a Go error.
abbrev pub Handler : Type 0 → Type 0 → Type 0
Handler W A = Exec (World W) Text A

-- A callback has no error to return.
abbrev pub CompletionFunc : Type 0 → Type 0
CompletionFunc W = Context → Text → Text → Exec (World W) ⊥ (List Text)

pub record ToolEntry (W : Type 0) : Type 0 where
  pub name : Text
  pub description : Text
  pub input_schema : Fields
  pub output_schema : Option Fields
  pub structured : Bool
  pub call : Context → Text → Handler W Value

-- Exactly one of `handler` and `blobHandler` is set: the tag says which.
pub data Reader (W : Type 0) (A : Type 0) : Type 0 where
  text_handler : (Context → A → Handler W Text) → Reader W A
  blob_handler : (Context → A → Handler W Text) → Reader W A

pub record ResourceEntry (W : Type 0) : Type 0 where
  pub uri : Text
  pub name : Text
  pub description : Text
  pub mime_type : Text
  pub reader : Reader W (Unit {0})

pub record TemplateEntry (W : Type 0) : Type 0 where
  pub template : Text
  pub name : Text
  pub description : Text
  pub mime_type : Text
  pub re : List Piece
  pub reader : Reader W (Dict Text)
  pub completer : Option (CompletionFunc W)

pub record PromptEntry (W : Type 0) : Type 0 where
  pub name : Text
  pub description : Text
  pub arguments : List PromptArgument
  pub handler : Context → Dict Text → Handler W (List PromptMessage)
  pub completer : Option (CompletionFunc W)

pub record Server (W : Type 0) : Type 0 where
  pub name : Text
  pub version : Text
  pub instructions : Text
  pub tools : Dict (ToolEntry W)
  pub tool_order : List Text
  pub resources : Dict (ResourceEntry W)
  pub resource_order : List Text
  pub templates : List (TemplateEntry W)
  pub prompts : Dict (PromptEntry W)
  pub prompt_order : List Text

abbrev pub protocol_version : Text
protocol_version = txt "2024-11-05"

abbrev pub default_version : Text
default_version = txt "0.2.0"

-- `if _, exists := m[key]; !exists { order = append(order, key) }`
abbrev pub ordered {ℓ} : {V : Type ℓ} → Text → Dict V → List Text → List Text
ordered key m order = if has key m then order else order ++ key ∷ []

module _ {W : Type 0} where
  abbrev pub with_version : Text → Server W → Server W
  with_version v s = record s { version = v }

  abbrev pub with_instructions : Text → Server W → Server W
  with_instructions i s = record s { instructions = i }

  abbrev pub apply_options : Server W → List (Server W → Server W) → Server W
  apply_options s [] = s
  apply_options s (opt ∷ opts) = apply_options (opt s) opts

  unfoldable pub new : Text → List (Server W → Server W) → Server W
  new name opts =
      apply_options
        (record {
          name = name;
          version = default_version;
          instructions = [];
          tools = [];
          tool_order = [];
          resources = [];
          resource_order = [];
          templates = [];
          prompts = [];
          prompt_order = [];
        })
        opts

  unfoldable pub register_tool : Text → ToolEntry W → Server W → Server W
  register_tool name entry s = record s {
    tools = put name entry s.tools;
    tool_order = ordered name s.tools s.tool_order;
  }

  -- Resource, and with the other handler BinaryResource
  unfoldable pub resource : Text → Text → Text → Text → Reader W (Unit {0}) → Server W → Server W
  resource uri name description mime_type reader s = record s {
    resources =
        put uri
          (record {
            uri = uri;
            name = name;
            description = description;
            mime_type = mime_type;
            reader = reader;
          })
          s.resources;
    resource_order = ordered uri s.resources s.resource_order;
  }

  -- ResourceTemplate, and with the other handler BinaryResourceTemplate
  unfoldable pub resource_template :
      Text → Text → Text → Text → Reader W (Dict Text) → Server W → Server W
  resource_template uri_template name description mime_type reader s = record s {
    templates =
        s.templates
        ++ (record {
          template = uri_template;
          name = name;
          description = description;
          mime_type = mime_type;
          re = compile_uri_template uri_template;
          reader = reader;
          completer = none;
        })
          ∷ [];
  }

  unfoldable pub binary_resource :
      Text → Text → Text → Text → (Context → Unit {0} → Handler W Text) → Server W → Server W
  unfolding resource
  binary_resource uri name description mime_type handler s =
      resource uri name description mime_type (blob_handler handler) s

  unfoldable pub binary_resource_template :
      Text → Text → Text → Text → (Context → Dict Text → Handler W Text) → Server W → Server W
  unfolding resource_template
  binary_resource_template uri_template name description mime_type handler s =
      resource_template uri_template name description mime_type (blob_handler handler) s

  unfoldable pub prompt :
      Text
      → Text
      → (Context → Dict Text → Handler W (List PromptMessage))
      → List PromptArgument
      → Server W
      → Server W
  prompt name description handler args s = record s {
    prompts =
        put name
          (record {
            name = name;
            description = description;
            arguments = args;
            handler = handler;
            completer = none;
          })
          s.prompts;
    prompt_order = ordered name s.prompts s.prompt_order;
  }

  unfoldable pub complete_prompt : Text → CompletionFunc W → Server W → Server W
  complete_prompt name fn s = elim (get name s.prompts) [
    | none ↦ s
    | some p ↦ record s { prompts = put name (record p { completer = some fn }) s.prompts }
  ]

  -- the loop of CompleteResourceTemplate, which stops at the first match
  unfoldable pub complete_first :
      Text → CompletionFunc W → List (TemplateEntry W) → List (TemplateEntry W)
  complete_first tmpl fn [] = []
  complete_first tmpl fn (t ∷ ts) =
      if text_eq t.template tmpl
      then record t { completer = some fn } ∷ ts
      else t ∷ complete_first tmpl fn ts

  unfoldable pub complete_resource_template : Text → CompletionFunc W → Server W → Server W
  unfolding complete_first
  complete_resource_template tmpl fn s = record s { templates = complete_first tmpl fn s.templates }
