-- ===== src/Retry/Attempts.antt =====
-- How often Retry of contrib/helpers.go calls the tool.
use fastmcp.Prelude.{
  ℕ, zero, suc, ◌+◌, ◌≤◌, Outcome, ok, err, panic, Exec, branch, continue, pure, ◌≡◌, arith,
  Bool-cases, inl, inr,
}
use fastmcp.Prelude.Int.{ℤ}
use fastmcp.Retry.{
  Caller, RetryPolicy, sleep, retryable, next_delay, retry_from, retry, further_attempts,
  is_positive,
}

module _ {S E R : Type 0} (calls : S → ℕ) where
  -- A call counts one, and waiting counts none.
  pub record Counts (c : Caller S E R) : Type 0 where
    pub one_call : (s : S) → calls (c.call_tool s).1 ≡ calls s + 1
    pub no_error_call : (s : S) → calls (c.context_error s).1 ≡ calls s
    pub no_wait_call : (d : ℤ) (s : S) → calls (c.wait d s).1 ≡ calls s

  module _ (c : Caller S E R) (policy : RetryPolicy E) (counts : Counts c) where
    calls-sleep : (d : ℤ) (s : S) → calls (sleep c policy d s).1 ≡ calls s
    unfolding sleep
    calls-sleep d s = elim (Bool-cases (is_positive d)) [
      | inl e ↦ rw e (counts.no_wait_call d s)
      | inr e ↦ rw e (counts.no_error_call s)
    ]

    -- one call at least, and n more at most
    abbrev Within : ℕ → ℕ → ℕ → Type 0
    Within k n m = (k + 1 ≤ m) × (m ≤ k + 1 + n)

    branch-Within :
        (k n : ℕ) (o : Outcome E R) (f : E → Exec S E R) (s : S)
        → calls s ≡ k + 1
        → ((e : E) → Within k n (calls (f e s).1))
        → Within k n (calls (branch {E = E} o f pure s).1)
    branch-Within k n (ok r) f s h later = omega arith
    branch-Within k n (err e) f s h later = later e
    branch-Within k n (panic m) f s h later = omega arith

    continue-Within :
        (k n : ℕ) (o : Outcome E (Unit {0})) (f : Exec S E R) (s : S)
        → calls s ≡ k + 1
        → Within (k + 1) n (calls (f s).1)
        → Within k (suc n) (calls (continue {E = E} o (λ u. f) s).1)
    continue-Within k n (ok u) f s h later = omega arith
    continue-Within k n (err e) f s h later = omega arith
    continue-Within k n (panic m) f s h later = omega arith

    calls-retry_from :
        (n : ℕ) (d : ℤ) (s : S) → Within (calls s) n (calls (retry_from c policy n d s).1)
    unfolding retry_from
    calls-retry_from zero d s =
        let called = counts.one_call s in
        branch-Within (calls s) zero (c.call_tool s).0 _ (c.call_tool s).1 called (λ e. omega arith)
    calls-retry_from (suc n) d s =
        let called = counts.one_call s in
        let s1 = (c.call_tool s).1 in
        let s2 = (sleep c policy d s1).1 in
        let slept = calls-sleep d s1 in
        let later = calls-retry_from n (next_delay c policy d) s2 in
        let again : Within (calls s + 1) n
            (calls (retry_from c policy n (next_delay c policy d) s2).1) =
          omega arith in
        branch-Within (calls s) (suc n) (c.call_tool s).0 _ s1 called (λ e.
          elim (Bool-cases (retryable c policy e)) [
            | inl yes_again ↦ rw yes_again (
                continue-Within (calls s) n (sleep c policy d s1).0
                  (retry_from c policy n (next_delay c policy d)) s2 (omega arith) again)
            | inr stop ↦ rw stop (omega arith)
          ])

    -- The tool is called once at least, and at most as often as the policy has attempts, which are one
    -- where it has none.
    pub calls-retry :
        (s : S)
        → (calls s + 1 ≤ calls (retry c policy s).1)
          × (calls (retry c policy s).1 ≤ calls s + 1 + further_attempts policy.max_attempts)
    unfolding retry
    calls-retry s = calls-retry_from (further_attempts policy.max_attempts) policy.base_delay s
