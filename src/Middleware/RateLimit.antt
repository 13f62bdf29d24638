-- ===== src/Middleware/RateLimit.antt =====
-- middleware/ratelimit.go: token buckets. The float64 that counts tokens is a parameter, with the operations
-- that the code uses. Time is in nanoseconds; a positive number of them is a positive number of seconds.
pub mod Bound
use fastmcp.Prelude.{
  ℕ, ◌-◌, Text, txt, is_empty, Bool, true, false, ltb, List, [], ◌∷◌, Option, none, some, Outcome,
  ok, err, panic, Exec, Slot, if◌then◌else◌,
}
use fastmcp.Prelude.Dict.{Dict, get, put}
use fastmcp.Prelude.Int.{ℤ, negsuc}
use fastmcp.Rpc.{Response}
use fastmcp.Middleware.{MiddlewareContext, Handler, Middleware, base, func, error_reply}
use fastmcp.Middleware.Recovery.{Observer, run_observer, answer_behind}

-- float64, each operation with its rounding
pub record Floats (F : Type 0) : Type 0 where
  pub of_int : ℤ → F
  pub one : F
  -- Duration.Seconds
  pub seconds : ℕ → F
  pub add : F → F → F
  pub sub : F → F → F
  pub mul : F → F → F
  pub less : F → F → Bool
  pub at_least : F → F → Bool

abbrev pub code_rate_limited : ℤ
code_rate_limited = negsuc 32000

pub record Bucket (F : Type 0) : Type 0 where
  pub tokens : F
  pub last : ℕ

pub record Config (S F : Type 0) : Type 0 where
  pub capacity : F
  pub refill : F
  pub key_func : MiddlewareContext → Text
  pub err_code : ℤ
  pub err_msg : Text
  pub on_limited : Observer S (Unit {0})

module _ {F : Type 0} (fl : Floats F) where
  -- NewRateLimit: a capacity below 1 is raised to 1
  abbrev pub new_config : {S : Type 0} → ℤ → F → Config S F
  new_config capacity refill = record {
    capacity = if fl.less (fl.of_int capacity) fl.one then fl.one else fl.of_int capacity;
    refill = refill;
    key_func = λ mc. mc.method;
    err_code = code_rate_limited;
    err_msg = txt "rate limit exceeded";
    on_limited = none;
  }

  -- `if b.tokens > r.capacity { b.tokens = r.capacity }`
  abbrev pub capped : F → F → F
  capped limit n = if fl.less limit n then limit else n

  abbrev pub grown : F → ℕ → F → F
  grown refill elapsed tokens = fl.add tokens (fl.mul (fl.seconds elapsed) refill)

  -- the bucket at the time of a request: a new one is full, an old one refills by the elapsed time
  unfoldable pub refilled : F → F → ℕ → Option (Bucket F) → Bucket F
  refilled limit refill now none = record { tokens = limit; last = now }
  refilled limit refill now (some b) =
      if ltb b.last now
      then record { tokens = capped limit (grown refill (now - b.last) b.tokens); last = now }
      else b

  -- `if b.tokens >= 1 { b.tokens--; return true }`
  unfoldable pub consume : Bucket F → Bool × Bucket F
  consume b =
      if fl.at_least b.tokens fl.one
      then (true, record b { tokens = fl.sub b.tokens fl.one })
      else (false, b)

  -- allow, at the time `now`
  unfoldable pub allow : F → F → ℕ → Text → Dict (Bucket F) → Bool × Dict (Bucket F)
  unfolding refilled consume
  allow capacity refill now key buckets =
      let (ok_now, b) = consume (refilled capacity refill now (get key buckets)) in
      (ok_now, put key b buckets)

module _ {S F : Type 0} (fl : Floats F) (slot : Slot S (Dict (Bucket F))) (now : S → ℕ)
    (r : Config S F) where
  abbrev pub take_token : MiddlewareContext → S → Bool × Dict (Bucket F)
  take_token mc s = allow fl r.capacity r.refill (now s) (r.key_func mc) (slot.read s)

  -- a rejection, behind its observer, whose panic escapes
  abbrev pub limited : MiddlewareContext → S → Outcome ⊥ (Option Response) × S
  limited mc s =
      answer_behind (ok (error_reply mc r.err_code r.err_msg)) (run_observer r.on_limited mc tt s)

  -- OnRequest of RateLimit: notifications pass
  unfoldable pub rate_limit : Middleware S
  unfolding allow
  rate_limit = func (λ mc next s.
      if is_empty mc.id
      then next mc s
      else if (take_token mc s).0
      then next mc (slot.write (take_token mc s).1 s)
      else limited mc (slot.write (take_token mc s).1 s))
