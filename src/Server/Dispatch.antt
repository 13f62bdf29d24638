-- ===== src/Server/Dispatch.antt =====
-- dispatch.go, completion.go and toContent of content.go: each method of the protocol as an action on
-- the world, and the dispatch of a request. Decoding and encoding JSON is the standard library's.
pub mod Handlers
use Handlers.{
  handle_tools_call, handle_resources_read, handle_subscribe, handle_unsubscribe,
  handle_prompts_get, handle_complete,
}
pub mod Routes
pub mod Replies
pub mod Calls
pub mod Reads
pub mod Completion
pub mod Subscriptions
use fastmcp.Prelude.{
  Text, txt, text_eq, Option, none, some, Outcome, ok, err, panic, Exec, pure, raise, lift, ◌++◌,
  if◌then◌else◌,
}
use fastmcp.Rpc.{
  Value, null, obj, end, Error, Request, Response, is_notification, new_error, result_response,
  error_response,
}
use fastmcp.Rpc.Codes.{err_method_not_found}
use fastmcp.Session.{World}
use fastmcp.Server.{Server, Context}
use fastmcp.Server.Listing.{
  handle_initialize, handle_tools_list, handle_resources_list, handle_resource_templates_list,
  handle_prompts_list,
}
use fastmcp.Server.Codec.{Codec}

-- what `Dispatch` makes of the result of `route`
abbrev pub reply : Request → Outcome Error Value → Outcome ⊥ (Option Response)
reply req (ok v) = if is_notification req then ok none else ok (some (result_response req.id v))
reply req (err e) = if is_notification req then ok none else ok (some (error_response req.id e))
reply req (panic m) = panic m

module _ {W : Type 0} (lib : Codec) (s : Server W) where
  unfoldable pub route : Context → Text → Text → Exec (World W) Error Value
  route c method params =
      if text_eq method (txt "initialize")
      then pure (handle_initialize lib s params)
      else if text_eq method (txt "notifications/initialized")
      then pure null
      else if text_eq method (txt "notifications/cancelled")
      then pure null
      else if text_eq method (txt "notifications/progress")
      then pure null
      else if text_eq method (txt "ping")
      then pure (obj end)
      else if text_eq method (txt "tools/list")
      then lift (handle_tools_list s)
      else if text_eq method (txt "tools/call")
      then handle_tools_call lib s c params
      else if text_eq method (txt "resources/list")
      then lift (handle_resources_list s)
      else if text_eq method (txt "resources/templates/list")
      then pure (handle_resource_templates_list s)
      else if text_eq method (txt "resources/read")
      then handle_resources_read lib s c params
      else if text_eq method (txt "resources/subscribe")
      then handle_subscribe lib c params
      else if text_eq method (txt "resources/unsubscribe")
      then handle_unsubscribe lib c params
      else if text_eq method (txt "prompts/list")
      then lift (handle_prompts_list s)
      else if text_eq method (txt "prompts/get")
      then handle_prompts_get lib s c params
      else if text_eq method (txt "completion/complete")
      then handle_complete lib s c params
      else raise (new_error err_method_not_found (txt "method not found: " ++ method))

  unfoldable pub dispatch : Context → Exec (World W) ⊥ (Option Response)
  dispatch c w = let (r, w') = route c c.req.method c.req.params w in (reply c.req r, w')
