-- ===== src/Tests/Retrying.antt =====
-- Runs of Retry of contrib/helpers.go.
use fastmcp.Prelude.{ℕ, ◌+◌, Text, txt, ltb, ok, err, ◌≡◌, refl, arith, if◌then◌else◌}
use fastmcp.Retry.{Caller, RetryPolicy, default_retry_policy, retry, sleep, next_delay}
use fastmcp.Retry.Outcomes.{settled, failing, retry_succeeds}

-- a tool that fails a number of times; the state counts the calls
abbrev busy : ℕ → Caller ℕ Text Text
busy times = record {
  call_tool = λ n. (if ltb n times then err (txt "busy") else ok (txt "fine"), n + 1);
  context_error = λ n. (ok tt, n);
  wait = λ d n. (ok tt, n);
}

abbrev patient : RetryPolicy Text
patient = default_retry_policy (λ d. d)

retry_succeeds_example : retry (busy 1) patient 0 ≡ (ok (txt "fine"), 2)
unfolding sleep next_delay
retry_succeeds_example =
    retry_succeeds (busy 1) patient (failing (txt "busy") refl refl refl settled) (omega arith) refl
