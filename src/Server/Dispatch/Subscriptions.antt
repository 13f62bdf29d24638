-- ===== src/Server/Dispatch/Subscriptions.antt =====
-- resources/subscribe and resources/unsubscribe of dispatch.go, and what NotifyResourceUpdated of
-- server.go makes of them.
use fastmcp.Prelude.{
  ℕ, Text, txt, text_eq, text_eq_refl, Bool, true, false, ◌&&◌, some, done, Bool-cases, inl, inr,
  ◌≡◌, refl, ◌∙◌, arith, if◌then◌else◌, ◌==◌, ==_iff,
}
use fastmcp.Prelude.Dict.{get-put, get-delete}
use fastmcp.Session.{
  World, notification, update, write, subscribe, unsubscribe, is_subscribed, is_member,
  resource_updated, notify_resource_updated,
}
use fastmcp.Session.Broadcast.{IsDistinct, deliver_if, store-notify_resource_updated}
use fastmcp.Server.{Server, Context}
use fastmcp.Server.Codec.{Codec}
use fastmcp.Server.Dispatch.{dispatch}
use fastmcp.Server.Dispatch.Routes.{route_subscribe, route_unsubscribe}
use fastmcp.Server.Dispatch.Handlers.{handle_subscribe, handle_unsubscribe}

self : (i : ℕ) → (i == i) ≡ true
self i = (==_iff i i).1 refl

module _ {W : Type 0} where
  is_subscribed-subscribe :
      (i j : ℕ) (uri v : Text) (w : World W)
      → is_subscribed j v (subscribe i uri w)
        ≡ (if (i == j) && text_eq uri v then true else is_subscribed j v w)
  unfolding subscribe update
  is_subscribed-subscribe i j uri v w = elim (Bool-cases (i == j)) [
    | inl same ↦
        let e = (==_iff i j).0 same in
        rw (same, ← e) (ground (arith, get-put uri v tt (w.store i).subs))
    | inr other ↦ rw other
  ]

  is_subscribed-unsubscribe :
      (i j : ℕ) (uri v : Text) (w : World W)
      → is_subscribed j v (unsubscribe i uri w)
        ≡ (if (i == j) && text_eq uri v then false else is_subscribed j v w)
  unfolding unsubscribe update
  is_subscribed-unsubscribe i j uri v w = elim (Bool-cases (i == j)) [
    | inl same ↦
        let e = (==_iff i j).0 same in
        rw (same, ← e) (ground (arith, get-delete uri v (w.store i).subs))
    | inr other ↦ rw other
  ]

  sessions-subscribe :
      (i : ℕ) (uri : Text) (w : World W) → (subscribe i uri w).sessions ≡ w.sessions
  unfolding subscribe
  sessions-subscribe i uri w = refl

  sessions-unsubscribe :
      (i : ℕ) (uri : Text) (w : World W) → (unsubscribe i uri w).sessions ≡ w.sessions
  unfolding unsubscribe
  sessions-unsubscribe i uri w = refl

  -- the delivery to a member whose subscription is known
  updated_known :
      (i : ℕ) (uri : Text) (w : World W) {b : Bool}
      → IsDistinct w.sessions
      → is_member i w.sessions ≡ true
      → is_subscribed i uri w ≡ b
      → (notify_resource_updated uri w).store i
        ≡ deliver_if b (notification (resource_updated uri)) (w.store i)
  updated_known i uri w d here sub = store-notify_resource_updated uri w i d ∙ rw (here, sub)

module _ {W : Type 0} (lib : Codec) (s : Server W) (c : Context) (w : World W) {i : ℕ} {uri : Text}
    (conn : c.conn ≡ some i) (decoded : lib.uri_params c.req.params ≡ done uri) where
  dispatch-subscribe :
      c.req.method ≡ txt "resources/subscribe" → (dispatch lib s c w).1 ≡ subscribe i uri w
  unfolding dispatch handle_subscribe
  dispatch-subscribe m = rw (route_subscribe lib s c c.req.params m) (rw (decoded, conn))

  dispatch-unsubscribe :
      c.req.method ≡ txt "resources/unsubscribe" → (dispatch lib s c w).1 ≡ unsubscribe i uri w
  unfolding dispatch handle_unsubscribe
  dispatch-unsubscribe m = rw (route_unsubscribe lib s c c.req.params m) (rw (decoded, conn))

  -- After a connection's resources/subscribe it is subscribed to that resource; every other
  -- subscription, of this connection or another, is as before.
  pub subscriptions_subscribe :
      (j : ℕ) (v : Text)
      → c.req.method ≡ txt "resources/subscribe"
      → is_subscribed j v (dispatch lib s c w).1
        ≡ (if (i == j) && text_eq uri v then true else is_subscribed j v w)
  subscriptions_subscribe j v m = rw (dispatch-subscribe m) (is_subscribed-subscribe i j uri v w)

  -- After a connection's resources/unsubscribe it is not subscribed to that resource; every other
  -- subscription, of this connection or another, is as before.
  pub subscriptions_unsubscribe :
      (j : ℕ) (v : Text)
      → c.req.method ≡ txt "resources/unsubscribe"
      → is_subscribed j v (dispatch lib s c w).1
        ≡ (if (i == j) && text_eq uri v then false else is_subscribed j v w)
  subscriptions_unsubscribe j v m =
      rw (dispatch-unsubscribe m) (is_subscribed-unsubscribe i j uri v w)

  -- A connected session that has just sent resources/subscribe receives, unless its writes fail, the
  -- notification of the next update of that resource.
  pub updated_after_subscribe :
      IsDistinct w.sessions
      → is_member i w.sessions ≡ true
      → c.req.method ≡ txt "resources/subscribe"
      → (notify_resource_updated uri (dispatch lib s c w).1).store i
        ≡ write (notification (resource_updated uri)) ((dispatch lib s c w).1.store i)
  updated_after_subscribe d here m = rw (dispatch-subscribe m) (
      updated_known i uri (subscribe i uri w) {b = true} (rw (sessions-subscribe i uri w) d)
        (rw (sessions-subscribe i uri w) here)
        (is_subscribed-subscribe i i uri uri w ∙ rw (self i, text_eq_refl uri)))

  -- A connected session that has just sent resources/unsubscribe is sent nothing at the next update of
  -- that resource.
  pub updated_after_unsubscribe :
      IsDistinct w.sessions
      → is_member i w.sessions ≡ true
      → c.req.method ≡ txt "resources/unsubscribe"
      → (notify_resource_updated uri (dispatch lib s c w).1).store i
        ≡ (dispatch lib s c w).1.store i
  updated_after_unsubscribe d here m = rw (dispatch-unsubscribe m) (
      updated_known i uri (unsubscribe i uri w) {b = false} (rw (sessions-unsubscribe i uri w) d)
        (rw (sessions-unsubscribe i uri w) here)
        (is_subscribed-unsubscribe i i uri uri w ∙ rw (self i, text_eq_refl uri)))
