-- ===== src/Tests.antt =====
-- A small server, its requests and a codec, for the runs of Tests/*: the codec reads a parameter
-- object from its one text.
mod Serving
mod Reading
mod Sessions
mod Pipeline
mod Logging
mod Batches
mod Waiting
mod Mounting
mod Templates
mod Tokens
mod Retrying
mod Eliciting
mod Schemas
mod References
mod Calling
mod Proxying
use fastmcp.Prelude.{
  ℕ, suc, Text, txt, is_empty, Bool, true, false, List, [], ◌∷◌, Option, none, some, Outcome, ok,
  err, panic, Result, done, failed, if◌then◌else◌, Slot, refl,
}
use fastmcp.Prelude.Dict.{Dict}
use fastmcp.Rpc.{Value, str, end, Request, PromptMessage}
use fastmcp.Session.{World, Session, new_session}
use fastmcp.Server.{
  Context, to_session, Handler, CompletionFunc, ToolEntry, ResourceEntry, TemplateEntry,
  PromptEntry, text_handler, Server,
}
use fastmcp.Server.Codec.{Codec}
use fastmcp.Server.Template.{lit, var}

abbrev pub or_short : {A : Type 0} → Text → A → Result A
or_short s a = if is_empty s then failed (txt "unexpected end of JSON input") else done a

abbrev pub demo_codec : Codec
demo_codec = record {
  initialize_params = λ s. or_short s s;
  call_tool_params = λ s. or_short s (record { name = s; arguments = [] });
  uri_params = λ s. or_short s s;
  get_prompt_params = λ s. or_short s (record { name = s; arguments = [] });
  complete_params = λ s. or_short s (record {
    ref = record { type = txt "ref/prompt"; name = s; uri = [] };
    argument = record { name = txt "name"; value = [] };
  });
  marshal = λ v. done (txt "{}");
  base64 = λ b. b;
}

abbrev pub greet : ToolEntry ℕ
greet = record {
  name = txt "greet";
  description = [];
  input_schema = end;
  output_schema = none;
  structured = true;
  call = λ c args w. (ok (str (txt "hello")), record w { user = suc w.user });
}

abbrev pub user_template : TemplateEntry ℕ
user_template = record {
  template = txt "users://{id}";
  name = txt "user";
  description = [];
  mime_type = txt "text/plain";
  re = lit (txt "users://") ∷ var (txt "id") ∷ [];
  reader = text_handler (λ c vars w. (ok (txt "a user"), w));
  completer = none;
}

abbrev pub post_template : TemplateEntry ℕ
post_template = record user_template {
  template = txt "posts://{id}";
  re = lit (txt "posts://") ∷ var (txt "id") ∷ [];
}

abbrev pub suggest : CompletionFunc ℕ
suggest c name value w = (ok (txt "ann" ∷ txt "bob" ∷ []), w)

abbrev pub hello : PromptEntry ℕ
hello = record {
  name = txt "hello";
  description = [];
  arguments = [];
  handler = λ c args w. (ok [], w);
  completer = some suggest;
}

abbrev pub demo_server : Server ℕ
demo_server = record {
  name = txt "demo";
  version = txt "1.0.0";
  instructions = [];
  tools = (txt "greet", greet) ∷ [];
  tool_order = txt "greet" ∷ [];
  resources = [];
  resource_order = [];
  templates = post_template ∷ user_template ∷ [];
  prompts = (txt "hello", hello) ∷ [];
  prompt_order = txt "hello" ∷ [];
}

abbrev pub call_of : Text → Text → Context
call_of method params = record {
  req = record { jsonrpc = txt "2.0"; id = txt "1"; method = method; params = params };
  send = to_session 0;
  conn = some 0;
  progress_token = [];
}

-- two connected sessions
abbrev pub demo_world : World ℕ
demo_world = record { store = λ i. new_session true; sessions = 0 ∷ 1 ∷ []; user = 0 }

-- the whole state as a slot of itself
abbrev pub whole : {A : Type 0} → Slot A A
whole = record {
  read = λ s. s;
  write = λ a s. a;
  read-write = λ a s. refl;
  write-write = λ a b s. refl;
}
