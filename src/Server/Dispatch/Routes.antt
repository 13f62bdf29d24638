-- ===== src/Server/Dispatch/Routes.antt =====
-- The switch of `route` in dispatch.go: which handler a method reaches.
use fastmcp.Prelude.{Text, txt, text_eq, ◌≡◌}
use fastmcp.Server.{Server, Context}
use fastmcp.Server.Codec.{Codec}
use fastmcp.Server.Dispatch.{route}
use fastmcp.Server.Dispatch.Handlers.{
  handle_tools_call, handle_resources_read, handle_subscribe, handle_unsubscribe, handle_complete,
}

module _ {W : Type 0} (lib : Codec) (s : Server W) (c : Context) (params : Text) {m : Text} where
  pub route_tools_call :
      m ≡ txt "tools/call" → route lib s c m params ≡ handle_tools_call lib s c params
  unfolding route text_eq
  route_tools_call e = rw e

  pub route_resources_read :
      m ≡ txt "resources/read" → route lib s c m params ≡ handle_resources_read lib s c params
  unfolding route text_eq
  route_resources_read e = rw e

  pub route_subscribe :
      m ≡ txt "resources/subscribe" → route lib s c m params ≡ handle_subscribe lib c params
  unfolding route text_eq
  route_subscribe e = rw e

  pub route_unsubscribe :
      m ≡ txt "resources/unsubscribe" → route lib s c m params ≡ handle_unsubscribe lib c params
  unfolding route text_eq
  route_unsubscribe e = rw e

  pub route_complete :
      m ≡ txt "completion/complete" → route lib s c m params ≡ handle_complete lib s c params
  unfolding route text_eq
  route_complete e = rw e
