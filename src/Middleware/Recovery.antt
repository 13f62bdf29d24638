-- ===== src/Middleware/Recovery.antt =====
-- middleware/errorhandling.go: Recovery, which turns a panic of what it wraps into an error.
use fastmcp.Prelude.{
  Text, txt, is_empty, Option, none, some, Outcome, ok, err, panic, ◌≡◌, refl, Exec, if◌then◌else◌,
}
use fastmcp.Rpc.{Response}
use fastmcp.Rpc.Codes.{err_internal}
use fastmcp.Middleware.{MiddlewareContext, Middleware, func, error_reply}

abbrev pub default_masked_message : Text
default_masked_message = txt "internal error"

-- `if msg == "" { msg = DefaultMaskedMessage }`
abbrev pub masked_message : Text → Text
masked_message msg = if is_empty msg then default_masked_message else msg

-- An observer is an action on the state, which may panic; a nil one does nothing.
abbrev pub Observer : Type 0 → Type 0 → Type 0
Observer S A = Option (MiddlewareContext → A → Exec S ⊥ (Unit {0}))

abbrev pub run_observer :
    {S A : Type 0} → Observer S A → MiddlewareContext → A → Exec S ⊥ (Unit {0})
run_observer none mc a s = (ok tt, s)
run_observer (some f) mc a s = f mc a s

-- an observer that never panics
abbrev pub IsQuiet : {S A : Type 0} → Observer S A → Type 0
IsQuiet {S} {A} o = (mc : MiddlewareContext) (a : A) (s : S) → (run_observer o mc a s).0 ≡ ok tt

-- the answer of a deferred function behind its observer, whose panic escapes
abbrev pub answer_behind :
    {S : Type 0}
    → Outcome ⊥ (Option Response)
    → Outcome ⊥ (Unit {0}) × S
    → Outcome ⊥ (Option Response) × S
answer_behind r (ok x, s) = (r, s)
answer_behind r (err e, s) = (err e, s)
answer_behind r (panic p, s) = (panic p, s)

-- The deferred function
abbrev pub recovered :
    {S : Type 0}
    → Text
    → Observer S Text
    → MiddlewareContext
    → Outcome ⊥ (Option Response) × S
    → Outcome ⊥ (Option Response) × S
recovered message observer mc (ok r, s) = (ok r, s)
recovered message observer mc (err e, s) = (err e, s)
recovered message observer mc (panic m, s) =
    answer_behind (ok (error_reply mc err_internal (masked_message message)))
      (run_observer observer mc m s)

unfoldable pub recovery : {S : Type 0} → Text → Observer S Text → Middleware S
recovery message observer = func (λ mc next s. recovered message observer mc (next mc s))

pub answer_behind_quiet :
    {S : Type 0} (r : Outcome ⊥ (Option Response)) (o : Outcome ⊥ (Unit {0})) (s : S)
    → o ≡ ok tt
    → (answer_behind r (o, s)).0 ≡ r
answer_behind_quiet r (ok x) s h = refl
answer_behind_quiet r (err e) s h = cc
answer_behind_quiet r (panic p) s h = cc

module _ {S : Type 0} (message : Text) (observer : Observer S Text) where
  -- What comes out of a chain behind Recovery.
  abbrev pub Recovers :
      MiddlewareContext → Outcome ⊥ (Option Response) → Outcome ⊥ (Option Response) → Type 0
  Recovers mc (ok r) o = o ≡ ok r
  Recovers mc (err e) o = ⊥
  Recovers mc (panic m) o = o ≡ ok (error_reply mc err_internal (masked_message message))
