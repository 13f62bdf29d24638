-- ===== src/Session.antt =====
-- session.go and the session set of server.go: connected clients, each an object of a store, with
-- what was written to it.
pub mod Broadcast
pub mod Requests
use fastmcp.Prelude.{
  ℕ, suc, Text, txt, text_eq, is_empty, Bool, true, false, List, [], ◌∷◌, ◌++◌, Option, none, some,
  Outcome, ok, err, panic, Exec, if◌then◌else◌, ◌==◌,
}
use fastmcp.Prelude.Dict.{Dict, get, put, delete, has}
use fastmcp.Rpc.{
  Value, null, str, obj, end, field, Error, Request, Response, Notification, jsonrpc_version,
}

-- The JSON messages that a session writes.
pub data Message : Type 0 where
  response : Response → Message
  notification : Notification → Message
  request : Request → Message

pub record Session : Type 0 where
  -- keys of the map `subs`
  pub subs : Dict (Unit {0})
  pub supports_requests : Bool
  -- whether `write` succeeds
  pub writable : Bool
  -- what was written, oldest first
  pub sent : List Message

-- Every session object by its address, the addresses in `sessions` of the server, and what the
-- user's handlers keep.
pub record World (W : Type 0) : Type 0 where
  pub store : ℕ → Session
  pub sessions : List ℕ
  pub user : W

-- newSessionWithWriter
abbrev pub new_session : Bool → Session
new_session supports = record {
  subs = [];
  supports_requests = supports;
  writable = true;
  sent = [];
}

unfoldable pub update : (ℕ → Session) → ℕ → Session → ℕ → Session
update f i sess j = if i == j then sess else f j

abbrev pub write_error : Text
write_error = txt "write failed"

unfoldable pub write : Message → Session → Session
write v sess = if sess.writable then record sess { sent = sess.sent ++ v ∷ [] } else sess

-- `if n.JSONRPC == "" { n.JSONRPC = JSONRPCVersion }`
unfoldable pub stamped : Notification → Notification
stamped n = if is_empty n.jsonrpc then record n { jsonrpc = jsonrpc_version } else n

module _ {W : Type 0} where
  abbrev pub set_session : ℕ → Session → World W → World W
  set_session i sess w = record w { store = update w.store i sess }

  unfoldable pub notify : ℕ → Notification → Exec (World W) Text (Unit {0})
  unfolding write stamped
  notify i n w =
      let sess = w.store i in
      (
        if sess.writable then ok tt else err write_error,
        set_session i (write (notification (stamped n)) sess) w,
      )

  unfoldable pub subscribe : ℕ → Text → World W → World W
  subscribe i uri w =
      let sess = w.store i in set_session i (record sess { subs = put uri tt sess.subs }) w

  unfoldable pub unsubscribe : ℕ → Text → World W → World W
  unsubscribe i uri w =
      let sess = w.store i in set_session i (record sess { subs = delete uri sess.subs }) w

  abbrev pub is_subscribed : ℕ → Text → World W → Bool
  is_subscribed i uri w = has uri (w.store i).subs

abbrev pub is_member : ℕ → List ℕ → Bool
is_member i [] = false
is_member i (j ∷ js) = if j == i then true else is_member i js

unfoldable pub without : ℕ → List ℕ → List ℕ
without i [] = []
without i (j ∷ js) = let rest = without i js in if j == i then rest else j ∷ rest

abbrev pub list_changed : Text → Notification
list_changed method = record { jsonrpc = jsonrpc_version; method = method; params = null }

module _ {W : Type 0} where
  -- addSession and removeSession, on a set of addresses
  unfoldable pub add_session : ℕ → World W → World W
  add_session i w =
      if is_member i w.sessions then w else record w { sessions = w.sessions ++ i ∷ [] }

  unfoldable pub remove_session : ℕ → World W → World W
  unfolding without
  remove_session i w = record w { sessions = without i w.sessions }

  -- the loop of `broadcast`: errors are dropped
  unfoldable pub broadcast_to : List ℕ → Notification → World W → World W
  broadcast_to [] n w = w
  broadcast_to (i ∷ is) n w = broadcast_to is n (notify i n w).1

  unfoldable pub broadcast : Notification → World W → World W
  broadcast n w = broadcast_to w.sessions n w

  unfoldable pub notify_tools_changed : World W → World W
  notify_tools_changed = broadcast (list_changed (txt "notifications/tools/list_changed"))

  unfoldable pub notify_resources_changed : World W → World W
  notify_resources_changed = broadcast (list_changed (txt "notifications/resources/list_changed"))

  unfoldable pub notify_prompts_changed : World W → World W
  notify_prompts_changed = broadcast (list_changed (txt "notifications/prompts/list_changed"))

abbrev pub resource_updated : Text → Notification
resource_updated uri = record {
  jsonrpc = jsonrpc_version;
  method = txt "notifications/resources/updated";
  params = obj (field (txt "uri") (str uri) end);
}

module _ {W : Type 0} where
  -- the loop of `NotifyResourceUpdated`
  unfoldable pub updated_to : List ℕ → Text → World W → World W
  updated_to [] uri w = w
  updated_to (i ∷ is) uri w =
      updated_to is uri (if is_subscribed i uri w then (notify i (resource_updated uri) w).1 else w)

  unfoldable pub notify_resource_updated : Text → World W → World W
  notify_resource_updated uri w = updated_to w.sessions uri w
