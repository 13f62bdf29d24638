-- ===== src/Session/Broadcast.antt =====
-- broadcast and NotifyResourceUpdated of server.go: who receives a notification.
use fastmcp.Prelude.{
  ℕ, Text, Bool, true, false, ◌&&◌, List, [], ◌∷◌, ◌++◌, Bool-cases, inl, inr, ◌≡◌, refl, ap, ◌∙◌,
  arith, if◌then◌else◌, ◌==◌, ==_iff,
}
use fastmcp.Prelude.Dict.{has}
use fastmcp.Rpc.{Notification}
use fastmcp.Session.{
  Session, World, Message, notification, update, write, stamped, notify, is_subscribed, is_member,
  without, add_session, remove_session, broadcast_to, broadcast, resource_updated, updated_to,
  notify_resource_updated,
}

abbrev pub IsDistinct : List ℕ → Type 0
IsDistinct [] = Unit
IsDistinct (i ∷ is) = (is_member i is ≡ false) × IsDistinct is

is_member-append :
    (i : ℕ) (is js : List ℕ)
    → is_member i (is ++ js) ≡ (if is_member i is then true else is_member i js)
is_member-append i [] js = refl
is_member-append i (k ∷ is) js = ground (arith, is_member-append i is js)

IsDistinct-append :
    (i : ℕ) (is : List ℕ) → is_member i is ≡ false → IsDistinct is → IsDistinct (is ++ i ∷ [])
IsDistinct-append i [] h d = (refl, tt)
IsDistinct-append i (k ∷ is) h d =
    (ground (arith, is_member-append k is (i ∷ [])), IsDistinct-append i is (ground arith) d.1)

is_member-without :
    (i j : ℕ) (is : List ℕ)
    → is_member j (without i is) ≡ (if i == j then false else is_member j is)
unfolding without
is_member-without i j [] = ground arith
is_member-without i j (k ∷ is) = ground (arith, is_member-without i j is)

IsDistinct-without : (i : ℕ) (is : List ℕ) → IsDistinct is → IsDistinct (without i is)
unfolding without
IsDistinct-without i [] d = tt
IsDistinct-without i (k ∷ is) d =
    ground (arith, IsDistinct-without i is d.1, is_member-without i k is)

subs-write : (m : Message) (sess : Session) → (write m sess).subs ≡ sess.subs
unfolding write
subs-write m sess = ground arith

abbrev pub deliver_if : Bool → Message → Session → Session
deliver_if b m sess = if b then write m sess else sess

deliver_twice :
    (uri : Text) (m : Message) (sess : Session) (e a : Bool)
    → (e ≡ true → a ≡ false)
    → deliver_if
        (a && has uri (deliver_if (e && has uri sess.subs) m sess).subs)
        m
        (deliver_if (e && has uri sess.subs) m sess)
      ≡ deliver_if ((if e then true else a) && has uri sess.subs) m sess
deliver_twice uri m sess true a h = rw (h refl)
deliver_twice uri m sess false a h = refl

module _ {W : Type 0} where
  -- Adding and removing sessions keeps their addresses distinct, makes the one session a member or
  -- not, and leaves the other memberships, the session objects and the user's state as they are.
  pub sessions_set :
      (i : ℕ) (w : World W)
      → IsDistinct w.sessions
      → (IsDistinct (add_session i w).sessions × IsDistinct (remove_session i w).sessions)
        × ((j : ℕ)
            → (is_member j (add_session i w).sessions
                ≡ (if i == j then true else is_member j w.sessions))
              × (is_member j (remove_session i w).sessions
                  ≡ (if i == j then false else is_member j w.sessions)))
        × ((add_session i w).store ≡ w.store)
        × ((remove_session i w).store ≡ w.store)
        × ((add_session i w).user ≡ w.user)
        × ((remove_session i w).user ≡ w.user)
  unfolding add_session remove_session
  sessions_set i w d = elim (Bool-cases (is_member i w.sessions)) [
    | inl old ↦ rw old (
      (d, IsDistinct-without i w.sessions d),
      λ j. (ground arith, is_member-without i j w.sessions),
      refl,
      refl,
      refl,
      refl,
    )
    | inr fresh ↦ rw fresh (
      (IsDistinct-append i w.sessions fresh d, IsDistinct-without i w.sessions d),
      λ j. (
        ground (arith, is_member-append j w.sessions (i ∷ [])),
        is_member-without i j w.sessions,
      ),
      refl,
      refl,
      refl,
      refl,
    )
  ]

  store-notify :
      (i j : ℕ) (n : Notification) (w : World W)
      → (notify i n w).1.store j
        ≡ (if i == j then write (notification (stamped n)) (w.store i) else w.store j)
  unfolding notify update
  store-notify i j n w = refl

  store-broadcast_to :
      (is : List ℕ) (n : Notification) (w : World W) (j : ℕ)
      → IsDistinct is
      → (broadcast_to is n w).store j
        ≡ deliver_if (is_member j is) (notification (stamped n)) (w.store j)
  unfolding broadcast_to
  store-broadcast_to [] n w j d = refl
  store-broadcast_to (i ∷ is) n w j d = elim (Bool-cases (i == j)) [
    | inl same ↦
        let e = (==_iff i j).0 same in
        let out : is_member j is ≡ false = rw (← e) d.0 in
        store-broadcast_to is n (notify i n w).1 j d.1 ∙ rw (out, store-notify i j n w, same, e)
    | inr other ↦ store-broadcast_to is n (notify i n w).1 j d.1 ∙ rw (store-notify i j n w, other)
  ]

  abbrev updated_one : ℕ → Text → World W → World W
  updated_one i uri w = if is_subscribed i uri w then (notify i (resource_updated uri) w).1 else w

  store-updated_one :
      (i j : ℕ) (uri : Text) (w : World W)
      → (updated_one i uri w).store j
        ≡ deliver_if
            ((i == j) && is_subscribed j uri w)
            (notification (stamped (resource_updated uri)))
            (w.store j)
  store-updated_one i j uri w = elim (Bool-cases (is_subscribed i uri w)) [
    | inl sub ↦ elim (Bool-cases (i == j)) [
      | inl same ↦
          let e = (==_iff i j).0 same in
          rw (sub, store-notify i j (resource_updated uri) w, same, ← e, sub)
      | inr other ↦ rw (sub, store-notify i j (resource_updated uri) w, other)
    ]
    | inr unsub ↦ elim (Bool-cases (i == j)) [
      | inl same ↦ let e = (==_iff i j).0 same in rw (unsub, same, ← e, unsub)
      | inr other ↦ rw (unsub, other)
    ]
  ]

  store-updated_to :
      (is : List ℕ) (uri : Text) (w : World W) (j : ℕ)
      → IsDistinct is
      → (updated_to is uri w).store j
        ≡ deliver_if
            (is_member j is && is_subscribed j uri w)
            (notification (stamped (resource_updated uri)))
            (w.store j)
  unfolding updated_to
  store-updated_to [] uri w j d = refl
  store-updated_to (i ∷ is) uri w j d =
      store-updated_to is uri (updated_one i uri w) j d.1
      ∙ ap
          (λ (x : Session).
            deliver_if (is_member j is && has uri x.subs)
              (notification (stamped (resource_updated uri))) x)
          (store-updated_one i j uri w)
      ∙ deliver_twice uri (notification (stamped (resource_updated uri))) (w.store j) (i == j)
          (is_member j is) (λ e. rw (← (==_iff i j).0 e) d.0)

  -- Whom a broadcast reaches: every connected session gets the notification once, stamped with the
  -- protocol version where it has none, unless its writes fail; no other session object changes.
  pub store-broadcast :
      (n : Notification) (w : World W) (j : ℕ)
      → IsDistinct w.sessions
      → (broadcast n w).store j
        ≡ deliver_if (is_member j w.sessions) (notification (stamped n)) (w.store j)
  unfolding broadcast
  store-broadcast n w j d = store-broadcast_to w.sessions n w j d

  -- Whom NotifyResourceUpdated reaches: exactly the connected sessions that are subscribed to the
  -- resource get its notification, each once, unless their writes fail; no other session object
  -- changes.
  pub store-notify_resource_updated :
      (uri : Text) (w : World W) (j : ℕ)
      → IsDistinct w.sessions
      → (notify_resource_updated uri w).store j
        ≡ deliver_if
            (is_member j w.sessions && is_subscribed j uri w)
            (notification (resource_updated uri))
            (w.store j)
  unfolding notify_resource_updated stamped
  store-notify_resource_updated uri w j d = store-updated_to w.sessions uri w j d
