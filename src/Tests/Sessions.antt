-- ===== src/Tests/Sessions.antt =====
-- Runs of the session set and of subscriptions.
use fastmcp.Prelude.{Text, txt, ◌&&◌, ◌≡◌, refl}
use fastmcp.Session.{
  notification, write, subscribe, is_subscribed, is_member, resource_updated,
  notify_resource_updated,
}
use fastmcp.Session.Broadcast.{deliver_if, store-notify_resource_updated}
use fastmcp.Server.Dispatch.{dispatch}
use fastmcp.Server.Dispatch.Subscriptions.{updated_after_subscribe}
use fastmcp.Server.{Context}
use fastmcp.Tests.{demo_codec, demo_server, demo_world, call_of}

abbrev uri : Text
uri = txt "config://app"

abbrev subscribing : Context
subscribing = call_of (txt "resources/subscribe") uri

abbrev unsubscribing : Context
unsubscribing = call_of (txt "resources/unsubscribe") uri

store-notify_resource_updated_example :
    (notify_resource_updated uri (subscribe 1 uri demo_world)).store 1
    ≡ deliver_if
        (is_member 1 (subscribe 1 uri demo_world).sessions
          && is_subscribed 1 uri (subscribe 1 uri demo_world))
        (notification (resource_updated uri))
        ((subscribe 1 uri demo_world).store 1)
unfolding subscribe
store-notify_resource_updated_example =
    store-notify_resource_updated uri (subscribe 1 uri demo_world) 1 (refl, (refl, tt))

updated_after_subscribe_example :
    (notify_resource_updated uri (dispatch demo_codec demo_server subscribing demo_world).1).store 0
    ≡ write
        (notification (resource_updated uri))
        ((dispatch demo_codec demo_server subscribing demo_world).1.store 0)
updated_after_subscribe_example =
    updated_after_subscribe demo_codec demo_server subscribing demo_world {i = 0} {uri = uri} refl
      refl (refl, (refl, tt)) refl refl
