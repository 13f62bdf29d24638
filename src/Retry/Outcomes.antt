-- ===== src/Retry/Outcomes.antt =====
-- What Retry of contrib/helpers.go returns after failed attempts.
use fastmcp.Prelude.{ℕ, zero, suc, ◌+◌, ◌-◌, ◌≤◌, true, ok, err, ◌≡◌, refl, ap, ◌∙◌, arith}
use fastmcp.Prelude.Int.{ℤ}
use fastmcp.Retry.{
  Caller, RetryPolicy, sleep, retryable, next_delay, retry_from, retry, further_attempts,
}

zero-add : (m : ℕ) → 0 + m ≡ m
zero-add m = omega arith

suc-add : (n m : ℕ) → suc n + m ≡ suc (n + m)
suc-add n m = omega arith

module _ {S E R : Type 0} (c : Caller S E R) (policy : RetryPolicy E) where
  -- Failures that are retried, a wait after each: from a delay and a state to the delay and the state
  -- of the next attempt.
  pub data Fails : ℕ → ℤ → S → ℤ → S → Type 0 where
    settled : {d : ℤ} {s : S} → Fails zero d s d s
    failing :
        {n : ℕ} {d d' : ℤ} {s s1 s2 s' : S} (e : E)
        → c.call_tool s ≡ (err e, s1)
        → retryable c policy e ≡ true
        → sleep c policy d s1 ≡ (ok tt, s2)
        → Fails n (next_delay c policy d) s2 d' s'
        → Fails (suc n) d s d' s'

  -- After failures that are retried the loop goes on with the attempts that are left.
  retry_from-Fails :
      {n : ℕ} (m : ℕ) {d d' : ℤ} {s s' : S}
      → Fails n d s d' s'
      → retry_from c policy (n + m) d s ≡ retry_from c policy m d' s'
  unfolding retry_from
  retry_from-Fails m {d = d} {s = s} settled = ap (λ k. retry_from c policy k d s) (zero-add m)
  retry_from-Fails m {d = d} {s = s} (failing {n = n} e called again slept fails) =
      ap (λ k. retry_from c policy k d s) (suc-add n m)
      ∙ rw called (rw again (rw slept (retry_from-Fails m fails)))

  retry_from-ok :
      (m : ℕ) (d : ℤ) {s s' : S} {r : R}
      → c.call_tool s ≡ (ok r, s')
      → retry_from c policy m d s ≡ (ok r, s')
  unfolding retry_from
  retry_from-ok zero d h = rw h refl
  retry_from-ok (suc m) d h = rw h refl

  -- A call that succeeds after failures that are retried is answered, if the policy has an attempt left.
  pub retry_succeeds :
      {n : ℕ} {d : ℤ} {s s' s'' : S} {r : R}
      → Fails n policy.base_delay s d s'
      → n ≤ further_attempts policy.max_attempts
      → c.call_tool s' ≡ (ok r, s'')
      → retry c policy s ≡ (ok r, s'')
  unfolding retry
  retry_succeeds {n} {d} {s} {s'} fails enough success =
      let k = further_attempts policy.max_attempts in
      let all : k ≡ n + (k - n) = omega arith in
      ap (λ j. retry_from c policy j policy.base_delay s) all
      ∙ retry_from-Fails (k - n) fails
      ∙ retry_from-ok (k - n) d success

  -- If every attempt fails, the error of the last is returned, whether it could be retried or not.
  pub retry_exhausted :
      {d : ℤ} {s s' s'' : S} {e : E}
      → Fails (further_attempts policy.max_attempts) policy.base_delay s d s'
      → c.call_tool s' ≡ (err e, s'')
      → retry c policy s ≡ (err e, s'')
  unfolding retry retry_from
  retry_exhausted {d} {s} fails failure =
      let k = further_attempts policy.max_attempts in
      let all : k ≡ k + 0 = omega arith in
      ap (λ j. retry_from c policy j policy.base_delay s) all
      ∙ retry_from-Fails 0 fails
      ∙ rw failure refl
