-- ===== src/Tests/Pipeline.antt =====
-- Runs of the middleware chain.
use fastmcp.Prelude.{
  ltb, leb, Text, text_eq, Exec, ℕ, ◌+◌, ◌-◌, ◌*◌, ◌≤◌, txt, false, List, [], ◌∷◌, none, some, ok,
  panic, ◌≡◌, refl, arith,
}
use fastmcp.Prelude.Dict.{get}
use fastmcp.Rpc.{new_error, error_response}
use fastmcp.Rpc.Codes.{err_internal}
use fastmcp.Middleware.{MiddlewareContext, Handler, Hook, chain_then}
use fastmcp.Middleware.Recovery.{recovery}
use fastmcp.Middleware.ErrorHandling.{
  Config, error_handling, IsMasked, Passes, error_handling_masks,
}
use fastmcp.Middleware.Metrics.{metrics, Records, metrics-Records, MethodStats}
use fastmcp.Middleware.RateLimit.{Floats}
use fastmcp.Middleware.RateLimit.Bound.{grants, grants_bounded, Call, IsRounded}
use fastmcp.Prelude.Dict.{Dict}
use fastmcp.Tests.{whole}

abbrev asked : MiddlewareContext
asked = record { method = txt "tools/call"; id = txt "1"; params = []; request = none; fmcp = none }

-- a handler that panics, and a hook that answers nothing
abbrev crash : Handler ℕ
crash mc s = (panic (txt "boom"), s)

abbrev silent : Hook ℕ
silent mc next s = (ok none, s)

-- a handler with an internal error
abbrev broken : Handler ℕ
broken mc s = (ok (some (error_response mc.id (new_error err_internal (txt "lost database")))), s)

abbrev counts : Dict MethodStats
counts = []

abbrev count_panic : MiddlewareContext → Text → Exec ℕ ⊥ (Unit {0})
count_panic mc p s = (ok tt, s + 1)

-- an observer's own panic escapes
abbrev worse : MiddlewareContext → Text → Exec ℕ ⊥ (Unit {0})
worse mc p s = (panic (txt "worse"), s)

escapes : chain_then (recovery [] (some worse) ∷ []) (some crash) asked 0 ≡ (panic (txt "worse"), 0)
unfolding recovery chain_then fastmcp.Middleware.wrap_all fastmcp.Middleware.wrap
    fastmcp.Middleware.operation text_eq
escapes = refl

abbrev masking : Config ℕ
masking = record { message = []; mask_all = false; include_error = false; on_error = none }

error_handling_masks_example :
    IsMasked masking (chain_then (error_handling masking ∷ []) (some broken) asked 0).0
    × Passes masking asked
        (chain_then [] (some broken) asked 0).0
        (chain_then (error_handling masking ∷ []) (some broken) asked 0).0
error_handling_masks_example =
    error_handling_masks masking (λ mc a s. refl) [] (some broken) asked 0

metrics-Records_example :
    ((chain_then (metrics whole (λ s. 7) ∷ []) none asked counts).0
      ≡ (chain_then [] none asked counts).0)
    × Records whole
        (λ s. 7)
        asked
        (chain_then [] none asked counts).0
        (chain_then [] none asked counts).1
        (chain_then (metrics whole (λ s. 7) ∷ []) none asked counts).1
metrics-Records_example = metrics-Records whole (λ s. 7) [] none asked counts

abbrev calls : List Call
calls = (txt "a", 5) ∷ (txt "b", 6) ∷ (txt "a", 9) ∷ []

-- tokens in tenths, a refill in tenths for a nanosecond, and every operation one tenth too high
abbrev tenths : Floats ℕ
tenths = record {
  of_int = λ n. 0;
  one = 10;
  seconds = λ t. t;
  add = λ a b. a + b + 1;
  sub = λ a b. a - b;
  mul = λ a b. a * b + 1;
  less = λ a b. ltb a b;
  at_least = λ a b. leb b a;
}

tenths-IsRounded : IsRounded tenths (λ a. a) 20 2 2 1
tenths-IsRounded = record {
  above = λ a h. ground (arith, h);
  not_above = λ a h. ground (arith, h);
  enough = λ a h. ground (arith, h);
  product = λ t x h k. omega (arith, h);
  sum = λ a b x h k. omega (arith, h);
  less_one = λ a h k. (omega (arith, h), omega arith);
}

grants_bounded_example :
    grants tenths 20 2 (txt "a") calls [] * 10 ≤ 20 + 2 * (10 - 5) + 3 * (3 * 1)
unfolding get
grants_bounded_example =
    grants_bounded tenths (λ a. a) 20 2 2 1 5 10 (txt "a") calls [] tenths-IsRounded
      ((omega arith, omega arith), ((omega arith, omega arith), ((omega arith, omega arith), tt)))
      refl
