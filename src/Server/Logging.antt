-- ===== src/Server/Logging.antt =====
-- context.go: the log records of a handler, and newRequestContext of session.go. A context without a
-- sender, or whose sender discards, sends nothing.
use fastmcp.Prelude.{ℕ, Text, txt, Option, none, some, ok, Exec, ◌≡◌, refl, if◌then◌else◌, ◌==◌}
use fastmcp.Rpc.{Value, str, obj, end, field, Notification, Request, jsonrpc_version}
use fastmcp.Session.{World, notify, notification, write, stamped, update}
use fastmcp.Server.{Context, Sender, discard, to_session}

-- newRequestContext; finding the progress token in the parameters is the JSON decoder's
abbrev pub new_request_context : (Text → Text) → ℕ → Request → Context
new_request_context parse_progress_token i req = record {
  req = req;
  send = to_session i;
  conn = some i;
  progress_token = parse_progress_token req.params;
}

abbrev pub log_record : Text → Value → Notification
log_record level v = record {
  jsonrpc = jsonrpc_version;
  method = txt "notifications/message";
  params = obj (field (txt "level") (str level) (field (txt "data") v end));
}

module _ {W : Type 0} where
  -- c.send
  unfoldable pub send_to : Sender → Notification → Exec (World W) Text (Unit {0})
  send_to discard n w = (ok tt, w)
  send_to (to_session i) n w = notify i n w

  -- Context.Log of a context, or of nil
  unfoldable pub log : Option Context → Text → Value → Exec (World W) Text (Unit {0})
  unfolding send_to
  log none level v w = (ok tt, w)
  log (some c) level v w = send_to c.send (log_record level v) w

  abbrev pub log_debug : Option Context → Value → Exec (World W) Text (Unit {0})
  log_debug c v = log c (txt "debug") v

  abbrev pub log_info : Option Context → Value → Exec (World W) Text (Unit {0})
  log_info c v = log c (txt "info") v

  abbrev pub log_warning : Option Context → Value → Exec (World W) Text (Unit {0})
  log_warning c v = log c (txt "warning") v

  abbrev pub log_error : Option Context → Value → Exec (World W) Text (Unit {0})
  log_error c v = log c (txt "error") v

  -- A log record of a handler that a session's request runs is written to that session, unless its
  -- writes fail; no other session object changes, nor the set of sessions, nor the user's state.
  pub log_reaches :
      (parse : Text → Text) (i j : ℕ) (req : Request) (level : Text) (v : Value) (w : World W)
      → ((log (some (new_request_context parse i req)) level v w).1.store j
          ≡ (if i == j then write (notification (log_record level v)) (w.store i) else w.store j))
        × ((log (some (new_request_context parse i req)) level v w).1.sessions ≡ w.sessions)
        × ((log (some (new_request_context parse i req)) level v w).1.user ≡ w.user)
  unfolding log notify update stamped
  log_reaches parse i j req level v w = (refl, refl, refl)
