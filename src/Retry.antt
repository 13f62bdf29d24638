-- ===== src/Retry.antt =====
-- contrib/helpers.go: Retry and Timed over a client's call of a tool. The call, the context, the timer, the
-- clock and the scaling of a delay by a float64 are parameters. A state S is what they act on.
pub mod Attempts
pub mod Outcomes
use fastmcp.Prelude.{
  ℕ, zero, suc, ◌-◌, Bool, true, false, not, ◌&&◌, Option, none, some, Outcome, ok, err, panic,
  Exec, pure, raise, catch, ◌>>=◌, ◌>>◌, if◌then◌else◌, ltb,
}
use fastmcp.Prelude.Int.{ℤ, pos, negsuc}

-- a time.Duration in nanoseconds
abbrev pub is_positive : ℤ → Bool
is_positive (pos n) = ltb 0 n
is_positive (negsuc n) = false

abbrev pub exceeds : ℤ → ℤ → Bool
exceeds (pos m) (pos n) = ltb n m
exceeds (pos m) (negsuc n) = true
exceeds (negsuc m) (pos n) = false
exceeds (negsuc m) (negsuc n) = ltb m n

pub record RetryPolicy (E : Type 0) : Type 0 where
  pub max_attempts : ℤ
  pub base_delay : ℤ
  pub max_delay : ℤ
  -- time.Duration(float64(d) * m), for the Multiplier m, or 2 where it is not positive
  pub scaled : ℤ → ℤ
  pub retry_if : Option (E → Bool)

-- DefaultRetryPolicy, for a way to double
abbrev pub default_retry_policy : {E : Type 0} → (ℤ → ℤ) → RetryPolicy E
default_retry_policy doubled = record {
  max_attempts = pos 3;
  base_delay = pos 50000000;
  max_delay = pos 2000000000;
  scaled = doubled;
  retry_if = none;
}

pub record Caller (S E R : Type 0) : Type 0 where
  pub call_tool : Exec S E R
  -- ctx.Err
  pub context_error : Exec S E (Unit {0})
  -- the select of a timer and the context's end
  pub wait : ℤ → Exec S E (Unit {0})

-- `attempts`, less the first
abbrev pub further_attempts : ℤ → ℕ
further_attempts (pos zero) = 0
further_attempts (pos (suc n)) = n
further_attempts (negsuc n) = 0

module _ {S E R : Type 0} (c : Caller S E R) (policy : RetryPolicy E) where
  unfoldable pub sleep : ℤ → Exec S E (Unit {0})
  sleep d = if is_positive d then c.wait d else c.context_error

  abbrev pub retryable : E → Bool
  retryable e = elim policy.retry_if [ none ↦ true | some test ↦ test e ]

  unfoldable pub next_delay : ℤ → ℤ
  next_delay d =
      if not (is_positive d)
      then d
      else if is_positive policy.max_delay && exceeds (policy.scaled d) policy.max_delay
      then policy.max_delay
      else policy.scaled d

  -- after a failed attempt: the attempts that are left, and what they do
  abbrev pub after_failure : ℤ → E → Option (Exec S E R) → Exec S E R
  after_failure delay e none = raise e
  after_failure delay e (some again) = if retryable e then sleep delay >> again else raise e

  -- the loop, with the attempts that are left after this one
  unfoldable pub retry_from : ℕ → ℤ → Exec S E R
  unfolding sleep next_delay
  retry_from zero delay = catch c.call_tool (λ e. after_failure delay e none) pure
  retry_from (suc n) delay =
      catch c.call_tool (λ e. after_failure delay e (some (retry_from n (next_delay delay)))) pure

  -- Retry over a client that is not nil
  unfoldable pub retry : Exec S E R
  unfolding retry_from
  retry = retry_from (further_attempts policy.max_attempts) policy.base_delay
