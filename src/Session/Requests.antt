-- ===== src/Session/Requests.antt =====
-- Requests of the server to a client, session.go: `request` and `deliver` as the steps of the
-- goroutines that run them. A channel is named by the counter of the request that made it, and has room
-- for one response. `key` prints a counter as a request id.
pub mod Delivery
use fastmcp.Prelude.{
  ℕ, ◌+◌, Text, Bool, true, false, List, [], ◌∷◌, ◌++◌, Option, none, some, ◌≡◌, if◌then◌else◌,
  ◌==◌,
}
use fastmcp.Prelude.Dict.{Dict, get, put, delete}

abbrev pub set_at : {A : Type 0} → (ℕ → A) → ℕ → A → ℕ → A
set_at f i a j = if i == j then a else f j

pub record Calls (R : Type 0) : Type 0 where
  -- supportsRequests
  pub supports : Bool
  pub counter : ℕ
  pub pending : Dict ℕ
  -- what the channels hold
  pub buffer : ℕ → Option R
  -- whether a request is still waiting at its select
  pub waiting : ℕ → Bool
  -- the response that a request returned
  pub answered : ℕ → Option R
  -- `deliver`, between its lookup and its send
  pub holding : Option (ℕ × R)
  -- every response that came in, the last first, and every request written
  pub received : List (Text × R)
  pub written : List (Text × Text)

module _ {R : Type 0} where
  abbrev pub no_calls : Bool → Calls R
  no_calls supports = record {
    supports = supports;
    counter = 0;
    pending = [];
    buffer = λ n. none;
    waiting = λ n. false;
    answered = λ n. none;
    holding = none;
    received = [];
    written = [];
  }

  -- `ch := sess.pending[id]`, and nothing to send where that is nil
  abbrev pub held : Option ℕ → R → Option (ℕ × R)
  held none r = none
  held (some n) r = some (n, r)

  module _ (key : ℕ → Text) where
    -- a new id and its channel are registered
    abbrev pub register_call : Calls R → Calls R
    register_call s =
        let n = s.counter + 1 in
        record s {
          counter = n;
          pending = put (key n) n s.pending;
          buffer = set_at s.buffer n none;
          waiting = set_at s.waiting n true;
        }

    abbrev pub write_call : ℕ → Text → Calls R → Calls R
    write_call n method s = record s { written = s.written ++ (key n, method) ∷ [] }

    -- `deliver` looks a response's id up
    abbrev pub look_up : Text → R → Calls R → Calls R
    look_up id r s = record s {
      holding = held (get id s.pending) r;
      received = (id, r) ∷ s.received;
    }

    -- `ch <- …`, which waits for room
    abbrev pub send_on : ℕ → R → Calls R → Calls R
    send_on n r s = record s { buffer = set_at s.buffer n (some r); holding = none }

    -- the case `resp := <-ch`, and the deferred delete
    abbrev pub return_response : ℕ → R → Calls R → Calls R
    return_response n r s = record s {
      buffer = set_at s.buffer n none;
      waiting = set_at s.waiting n false;
      answered = set_at s.answered n (some r);
      pending = delete (key n) s.pending;
    }

    -- `<-ctx.Done()`, or an error before the select, and the deferred delete
    abbrev pub give_up : ℕ → Calls R → Calls R
    give_up n s = record s {
      waiting = set_at s.waiting n false;
      pending = delete (key n) s.pending;
    }

    pub data Step : Calls R → Calls R → Type 0 where
      registers : (s : Calls R) → s.supports ≡ true → Step s (register_call s)
      writes :
          (s : Calls R) (n : ℕ) (method : Text)
          → s.waiting n ≡ true
          → Step s (write_call n method s)
      looks_up : (s : Calls R) (id : Text) (r : R) → s.holding ≡ none → Step s (look_up id r s)
      sends :
          (s : Calls R) (n : ℕ) (r : R)
          → s.holding ≡ some (n, r)
          → s.buffer n ≡ none
          → Step s (send_on n r s)
      returns :
          (s : Calls R) (n : ℕ) (r : R)
          → s.waiting n ≡ true
          → s.buffer n ≡ some r
          → Step s (return_response n r s)
      gives_up : (s : Calls R) (n : ℕ) → s.waiting n ≡ true → Step s (give_up n s)

    pub data Steps : Calls R → Calls R → Type 0 where
      stay : (s : Calls R) → Steps s s
      next : (s t u : Calls R) → Step s t → Steps t u → Steps s u
