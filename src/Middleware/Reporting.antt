-- ===== src/Middleware/Reporting.antt =====
-- middleware/timing.go and middleware/logging.go. The clock is a parameter; the duration that a request's
-- context keeps, what a report was told and the records handed to the logger are slots of the state.
use fastmcp.Prelude.{
  ℕ, ◌+◌, ◌-◌, ◌/◌, ◌%◌, Text, txt, Bool, List, [], ◌∷◌, ◌++◌, Option, none, some, Outcome, ok, err,
  panic, Slot, ◌≡◌, ◌∙◌, ap, if◌then◌else◌,
}
use fastmcp.Prelude.Int.{ℤ, pos}
use fastmcp.Rpc.{Response, Error}
use fastmcp.Middleware.{MiddlewareContext, Handler, Hook, Middleware, func, chain_then}
use fastmcp.Middleware.Chain.{chain_then-func}
use fastmcp.Middleware.Metrics.{word}

-- `t.now().Sub(start)`, in nanoseconds
abbrev pub elapsed : ℕ → ℕ → ℕ
elapsed start stop = (stop + word - start) % word

module _ {S : Type 0} (duration : Slot S (Option ℕ)) (report : Option (Text → ℕ → S → S))
    (now : S → ℕ) where
  abbrev pub reported_to : Option (Text → ℕ → S → S) → Text → ℕ → S → S
  reported_to none method d s = s
  reported_to (some tell) method d s = tell method d s

  -- what follows `resp := next(mc)`
  abbrev pub timed : MiddlewareContext → ℕ → Outcome ⊥ (Option Response) → S → S
  timed mc start (ok resp) s =
      let d = elapsed start (now s) in reported_to report mc.method d (duration.write (some d) s)
  timed mc start (err e) s = s
  timed mc start (panic m) s = s

  -- Timing.OnRequest
  abbrev pub on_timed : Hook S
  on_timed mc next s = let (r, s') = next mc s in (r, timed mc (now s) r s')

  unfoldable pub timing : Middleware S
  timing = func on_timed

  -- DurationOf
  abbrev pub duration_of : S → Option ℕ
  duration_of s = duration.read s

pub record LogLine : Type 0 where
  pub level : ℤ
  pub message : Text
  pub method : Text
  pub duration_ms : Option ℕ
  pub status : Text
  pub error : Option (ℤ × Text)

-- slog.LevelError
abbrev pub level_error : ℤ
level_error = pos 8

abbrev pub error_of : Option Response → Option Error
error_of none = none
error_of (some resp) = resp.error

module _ {S : Type 0} (lines : Slot S (List LogLine)) (now : S → ℕ) (level : ℤ)
    (log_start : Bool) where
  abbrev pub add_line : LogLine → S → S
  add_line l s = lines.write (lines.read s ++ l ∷ []) s

  abbrev pub started_line : Text → LogLine
  started_line method = record {
    level = level;
    message = txt "request started";
    method = method;
    duration_ms = none;
    status = [];
    error = none;
  }

  -- the line of a finished request
  unfoldable pub finished_line : Text → ℕ → Option Error → LogLine
  finished_line method d none = record {
    level = level;
    message = txt "request completed";
    method = method;
    duration_ms = some (d / 1000000);
    status = txt "ok";
    error = none;
  }
  finished_line method d (some e) = record {
    level = level_error;
    message = txt "request failed";
    method = method;
    duration_ms = some (d / 1000000);
    status = txt "error";
    error = some (e.code, e.message);
  }

  abbrev pub started : MiddlewareContext → S → S
  started mc s = if log_start then add_line (started_line mc.method) s else s

  abbrev pub finished : MiddlewareContext → ℕ → Outcome ⊥ (Option Response) → S → S
  finished mc start (ok resp) s =
      add_line (finished_line mc.method (elapsed start (now s)) (error_of resp)) s
  finished mc start (err e) s = s
  finished mc start (panic m) s = s

  -- Logging.OnRequest
  abbrev pub on_logged : Hook S
  on_logged mc next s =
      let s0 = started mc s in let (r, s1) = next mc s0 in (r, finished mc (now s0) r s1)

  unfoldable pub logging : Middleware S
  unfolding finished_line
  logging = func on_logged

  finished-Lines :
      (mc : MiddlewareContext) (start : ℕ) (resp : Option Response) (s : S)
      → lines.read (finished mc start (ok resp) s)
        ≡ lines.read s ++ finished_line mc.method (elapsed start (now s)) (error_of resp) ∷ []
  finished-Lines mc start resp s = lines.read-write _ s

  -- A request that is answered is answered as without the middleware, and leaves one line behind those of
  -- the rest of the chain: as failed if the response has an error, and else as completed.
  pub logging-Lines :
      (ms : List (Middleware S)) (final : Option (Handler S)) (mc : MiddlewareContext) (s s1 : S)
      (resp : Option Response)
      → chain_then ms final mc (started mc s) ≡ (ok resp, s1)
      → ((chain_then (logging ∷ ms) final mc s).0 ≡ ok resp)
        × (lines.read (chain_then (logging ∷ ms) final mc s).1
            ≡ lines.read s1
              ++ finished_line mc.method (elapsed (now (started mc s)) (now s1)) (error_of resp)
                ∷ [])
  unfolding logging
  logging-Lines ms final mc s s1 resp h =
      let opened : chain_then (logging ∷ ms) final mc s ≡ on_logged mc (chain_then ms final) s =
        ap (λ act. act s) (chain_then-func on_logged ms final mc) in
      let ran : on_logged mc (chain_then ms final) s
          ≡ (ok resp, finished mc (now (started mc s)) (ok resp) s1) =
        ap (λ p. (p.0, finished mc (now (started mc s)) p.0 p.1)) h in
      (
        ap (λ p. p.0) (opened ∙ ran),
        ap (λ p. lines.read p.1) (opened ∙ ran) ∙ finished-Lines mc (now (started mc s)) resp s1,
      )
