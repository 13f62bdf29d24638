-- ===== src/Middleware.antt =====
-- middleware/middleware.go: a pipeline of middlewares in front of a handler. A handler is an action
-- on a state: the world of the server and what the middlewares keep.
pub mod Chain
pub mod Recovery
pub mod ErrorHandling
pub mod RateLimit
pub mod Metrics
pub mod Reporting
use mathlib.Core.List.{reverse}
use fastmcp.Prelude.{
  Text, txt, text_eq, is_empty, Bool, List, [], ◌∷◌, ◌++◌, Option, none, some, Exec, pure, Slot,
  within, if◌then◌else◌,
}
use fastmcp.Prelude.Dict.{Dict, put, get}
use fastmcp.Prelude.Int.{ℤ}
use fastmcp.Rpc.{Value, Request, Response, new_error, error_response}
use fastmcp.Rpc.Codes.{err_internal}
use fastmcp.Session.{World}
use fastmcp.Server.{Server, Context}
use fastmcp.Server.Codec.{Codec}
use fastmcp.Server.Dispatch.{dispatch}

pub record MiddlewareContext : Type 0 where
  pub method : Text
  pub id : Text
  pub params : Text
  pub request : Option Request
  pub fmcp : Option Context

abbrev pub Handler : Type 0 → Type 0
Handler S = MiddlewareContext → Exec S ⊥ (Option Response)

abbrev pub Hook : Type 0 → Type 0
Hook S = MiddlewareContext → Handler S → Exec S ⊥ (Option Response)

pub record Middleware (S : Type 0) : Type 0 where
  pub on_request : Hook S
  pub on_call_tool : Hook S
  pub on_list_tools : Hook S
  pub on_read_resource : Hook S
  pub on_get_prompt : Hook S

-- NewMiddlewareContext of a request, or of nil
unfoldable pub new_context : Option Request → MiddlewareContext
new_context none = record { method = []; id = []; params = []; request = none; fmcp = none }
new_context (some req) = record {
  method = req.method;
  id = req.id;
  params = req.params;
  request = some req;
  fmcp = none;
}

-- FromFastMCPContext
unfoldable pub from_context : Context → MiddlewareContext
unfolding new_context
from_context c = record (new_context (some c.req)) { fmcp = some c }

-- errorResponse: nothing for a notification
unfoldable pub error_reply : MiddlewareContext → ℤ → Text → Option Response
error_reply mc code msg =
    if is_empty mc.id then none else some (error_response mc.id (new_error code msg))

module _ {S : Type 0} where
  abbrev pub continue_chain : Hook S
  continue_chain mc next = next mc

  -- Base: every hook continues the chain
  abbrev pub base : Middleware S
  base = record {
    on_request = continue_chain;
    on_call_tool = continue_chain;
    on_list_tools = continue_chain;
    on_read_resource = continue_chain;
    on_get_prompt = continue_chain;
  }

  -- Func
  abbrev pub func : Hook S → Middleware S
  func f = record base { on_request = f }

  -- the hook of the operation, of `wrap`
  unfoldable pub operation : Middleware S → Handler S → Handler S
  operation m next mc =
      if text_eq mc.method (txt "tools/call")
      then m.on_call_tool mc next
      else if text_eq mc.method (txt "tools/list")
      then m.on_list_tools mc next
      else if text_eq mc.method (txt "resources/read")
      then m.on_read_resource mc next
      else if text_eq mc.method (txt "prompts/get")
      then m.on_get_prompt mc next
      else next mc

  unfoldable pub wrap : Middleware S → Handler S → Handler S
  wrap m next mc = m.on_request mc (operation m next)

  -- the loop of `Then`, from the last middleware to the first
  unfoldable pub wrap_all : Handler S → List (Middleware S) → Handler S
  wrap_all h [] = h
  wrap_all h (m ∷ ms) = wrap_all (wrap m h) ms

  abbrev pub or_silent : Option (Handler S) → Handler S
  or_silent none mc = pure none
  or_silent (some final) mc = final mc

  -- Chain.Then; a nil handler answers nothing
  unfoldable pub chain_then : List (Middleware S) → Option (Handler S) → Handler S
  chain_then mws final = wrap_all (or_silent final) (reverse mws)

  -- Chain.Use
  abbrev pub use_more : List (Middleware S) → List (Middleware S) → List (Middleware S)
  use_more mws more = mws ++ more

abbrev pub no_server : Text
no_server = txt "middleware: dispatch without a server context"

module _ {S W : Type 0} (world : Slot S (World W)) (lib : Codec) (server : Server W) where
  -- the terminal handler of NewDispatcher
  unfoldable pub terminal : Handler S
  terminal mc = elim mc.fmcp [
    | none ↦ pure (error_reply mc err_internal no_server)
    | some c ↦ within world (dispatch lib server c)
  ]

  -- Dispatcher.Dispatch
  unfoldable pub dispatch_through : List (Middleware S) → Context → Exec S ⊥ (Option Response)
  unfolding terminal
  dispatch_through mws c = chain_then mws (some terminal) (from_context c)
