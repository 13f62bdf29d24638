-- ===== src/Middleware/ErrorHandling.antt =====
-- middleware/errorhandling.go: ErrorHandling, which masks what errors tell a client.
use fastmcp.Prelude.{
  Bool-cases, inl, inr, sym, ◌∙◌, Text, txt, is_empty, Bool, true, false, ◌++◌, List, [], ◌∷◌, Exec,
  Option, none, some, Outcome, ok, err, panic, ◌≡◌, ◌≢◌, ◌⊎◌, refl, arith, if◌then◌else◌,
}
use fastmcp.Prelude.Int.{ℤ, int_eq, int_eq_iff}
use fastmcp.Rpc.{null, str, Error, Response, new_error, error_response}
use fastmcp.Rpc.Codes.{err_internal}
use fastmcp.Middleware.{MiddlewareContext, Handler, Middleware, func, chain_then}
use fastmcp.Middleware.Chain.{chain_then-func}
use fastmcp.Middleware.Recovery.{
  masked_message, Observer, run_observer, IsQuiet, answer_behind, answer_behind_quiet,
}

pub record Config (S : Type 0) : Type 0 where
  pub message : Text
  pub mask_all : Bool
  pub include_error : Bool
  pub on_error : Observer S Error

abbrev pub code_of : Option Error → Option ℤ
code_of none = none
code_of (some e) = some e.code

module _ {S : Type 0} (m : Config S) where
  unfoldable pub should_mask : Error → Bool
  should_mask e = if m.mask_all then true else int_eq e.code err_internal

  unfoldable pub mask_error : Error → Error
  mask_error e = record {
    code = e.code;
    message = masked_message m.message;
    error_data = if m.include_error then str e.message else null;
  }

  abbrev pub observed : MiddlewareContext → Error → Exec S ⊥ (Unit {0})
  observed mc e = run_observer m.on_error mc e

  unfoldable pub masked : MiddlewareContext → Error → Option Response
  unfolding mask_error
  masked mc e = if is_empty mc.id then none else some (error_response mc.id (mask_error e))

  abbrev pub panic_error : Text → Error
  panic_error p = new_error err_internal (txt "panic: " ++ p)

  abbrev pub masked_response : Response → Error → Response
  masked_response resp e =
      if should_mask e then record resp { error = some (mask_error e) } else resp

  -- the deferred function, for what was recovered
  abbrev pub deferred : MiddlewareContext → Text → S → Outcome ⊥ (Option Response) × S
  deferred mc p s = answer_behind (ok (masked mc (panic_error p))) (observed mc (panic_error p) s)

  -- the response behind OnError, whose panic the deferred function recovers
  abbrev pub noted :
      MiddlewareContext → Response → Outcome ⊥ (Unit {0}) × S → Outcome ⊥ (Option Response) × S
  noted mc resp (ok x, s) = (ok (some resp), s)
  noted mc resp (err e, s) = (err e, s)
  noted mc resp (panic p, s) = deferred mc p s

  -- what follows `resp = next(mc)`
  abbrev pub after_error :
      MiddlewareContext → Response → Option Error → S → Outcome ⊥ (Option Response) × S
  after_error mc resp none s = (ok (some resp), s)
  after_error mc resp (some e) s = noted mc (masked_response resp e) (observed mc e s)

  abbrev pub after_next :
      MiddlewareContext → Outcome ⊥ (Option Response) → S → Outcome ⊥ (Option Response) × S
  after_next mc (ok none) s = (ok none, s)
  after_next mc (ok (some resp)) s = after_error mc resp resp.error s
  after_next mc (err e) s = (err e, s)
  after_next mc (panic p) s = deferred mc p s

  unfoldable pub error_handling : Middleware S
  unfolding masked should_mask
  error_handling = func (λ mc next s. after_next mc (next mc s).0 (next mc s).1)

  -- A response whose internal errors tell nothing: every error with the internal code, and every
  -- error under MaskAll, has the message of the configuration, and data only if errors are included.
  abbrev pub IsMasked : Outcome ⊥ (Option Response) → Type 0
  IsMasked (ok none) = Unit
  IsMasked (ok (some resp)) =
      (e : Error)
      → resp.error ≡ some e
      → (m.mask_all ≡ true) ⊎ (e.code ≡ err_internal)
      → (e.message ≡ masked_message m.message) × (m.include_error ≡ false → e.error_data ≡ null)
  IsMasked (err e) = ⊥
  IsMasked (panic p) = ⊥

  -- How a response relates to the one below: the same, but for the content of a masked error; a panic is
  -- an internal error, for a notification nothing.
  abbrev pub Passes :
      MiddlewareContext → Outcome ⊥ (Option Response) → Outcome ⊥ (Option Response) → Type 0
  Passes mc (ok none) o = o ≡ ok none
  Passes mc (ok (some resp)) o =
      (resp' : Response) × (o ≡ ok (some resp'))
      × (resp'.id ≡ resp.id)
      × (resp'.result ≡ resp.result)
      × (code_of resp'.error ≡ code_of resp.error)
      × (((e : Error) → resp.error ≡ some e → (m.mask_all ≡ false) × (e.code ≢ err_internal))
          → resp' ≡ resp)
  Passes mc (err e) o = ⊥
  Passes mc (panic p) o =
      (mc.id ≡ [] → o ≡ ok none)
      × (mc.id ≢ []
          → (resp : Response) × (o ≡ ok (some resp))
            × (resp.id ≡ mc.id)
            × (code_of resp.error ≡ some err_internal))

  noted_quiet :
      (mc : MiddlewareContext) (resp : Response) (o : Outcome ⊥ (Unit {0})) (s : S)
      → o ≡ ok tt
      → (noted mc resp (o, s)).0 ≡ ok (some resp)
  noted_quiet mc resp (ok x) s h = refl
  noted_quiet mc resp (err e) s h = cc
  noted_quiet mc resp (panic p) s h = cc

  is_empty_ne : (t : Text) → t ≢ [] → is_empty t ≡ false
  is_empty_ne [] h = absurd (h refl)
  is_empty_ne (c ∷ t) h = refl

  mask_error-IsMasked :
      (e e' : Error)
      → mask_error e ≡ e'
      → (e'.message ≡ masked_message m.message) × (m.include_error ≡ false → e'.error_data ≡ null)
  unfolding mask_error
  mask_error-IsMasked e e' same = (rw (← same), λ k. rw (← same) (rw k))

  not_masked :
      (e e' : Error)
      → should_mask e ≡ false
      → e ≡ e'
      → ¬ ((m.mask_all ≡ true) ⊎ (e'.code ≡ err_internal))
  unfolding should_mask
  not_masked e e' h same k = ground (arith, int_eq_iff e.code err_internal)

  spared : (e : Error) → should_mask e ≡ true → ¬ ((m.mask_all ≡ false) × (e.code ≢ err_internal))
  unfolding should_mask
  spared e h k = ground (arith, int_eq_iff e.code err_internal)

  masked_cases :
      (b : Bool) (resp : Response) (e e' : Error)
      → resp.error ≡ some e
      → (if b then record resp { error = some (mask_error e) } else resp).error ≡ some e'
      → ((b ≡ true) × (mask_error e ≡ e')) ⊎ ((b ≡ false) × (e ≡ e'))
  masked_cases true resp e e' h h' = inl (refl, cc)
  masked_cases false resp e e' h h' = inr (refl, cc)

  mask-IsMasked :
      (resp : Response) (e : Error)
      → resp.error ≡ some e
      → IsMasked (ok (some (masked_response resp e)))
  unfolding should_mask mask_error
  mask-IsMasked resp e h e' h' k = elim (masked_cases (should_mask e) resp e e' h h') [
    | inl (yes_mask, same) ↦ mask_error-IsMasked e e' same
    | inr (no_mask, same) ↦ absurd (not_masked e e' no_mask same k)
  ]

  after_error-IsMasked :
      IsQuiet m.on_error
      → (mc : MiddlewareContext) (resp : Response) (o : Option Error) (s : S) → resp.error ≡ o
      → IsMasked (after_error mc resp o s).0
  after_error-IsMasked q mc resp none s h =
      λ e h' k. let clash : ⊥ = cc (sym h ∙ h') in absurd clash
  after_error-IsMasked q mc resp (some e) s h =
      rw
        (noted_quiet mc (masked_response resp e) (observed mc e s).0 (observed mc e s).1 (q mc e s))
        (mask-IsMasked resp e h)

  masked-IsMasked : (mc : MiddlewareContext) (p : Text) → IsMasked (ok (masked mc (panic_error p)))
  unfolding masked
  masked-IsMasked mc p = elim (Bool-cases (is_empty mc.id)) [
    | inl n ↦ rw (n, masked) tt
    | inr n ↦ rw (n, masked) (λ e h k. mask_error-IsMasked (panic_error p) e (cc h))
  ]

  deferred_quiet :
      IsQuiet m.on_error
      → (mc : MiddlewareContext) (p : Text) (s : S)
      → (deferred mc p s).0 ≡ ok (masked mc (panic_error p))
  deferred_quiet q mc p s =
      answer_behind_quiet _ (observed mc (panic_error p) s).0 (observed mc (panic_error p) s).1
        (q mc (panic_error p) s)

  after_next-IsMasked :
      IsQuiet m.on_error
      → (mc : MiddlewareContext) (r : Outcome ⊥ (Option Response)) (s : S)
      → IsMasked (after_next mc r s).0
  after_next-IsMasked q mc (ok none) s = tt
  after_next-IsMasked q mc (ok (some resp)) s = after_error-IsMasked q mc resp resp.error s refl
  after_next-IsMasked q mc (err e) s = e
  after_next-IsMasked q mc (panic p) s = rw (deferred_quiet q mc p s) (masked-IsMasked mc p)

  masked-Passes :
      (mc : MiddlewareContext) (b : Bool) (resp : Response) (e : Error)
      → resp.error ≡ some e
      → should_mask e ≡ b
      → Passes mc
          (ok (some resp))
          (ok (some (if b then record resp { error = some (mask_error e) } else resp)))
  unfolding mask_error
  masked-Passes mc true resp e h m = (_, refl, refl, refl, rw h, λ k. absurd (spared e m (k e h)))
  masked-Passes mc false resp e h m = (_, refl, refl, refl, refl, λ k. refl)

  after_error-Passes :
      IsQuiet m.on_error
      → (mc : MiddlewareContext) (resp : Response) (o : Option Error) (s : S) → resp.error ≡ o
      → Passes mc (ok (some resp)) (after_error mc resp o s).0
  after_error-Passes q mc resp none s h = (resp, refl, refl, refl, refl, λ k. refl)
  after_error-Passes q mc resp (some e) s h =
      rw
        (noted_quiet mc (masked_response resp e) (observed mc e s).0 (observed mc e s).1 (q mc e s))
        (masked-Passes mc (should_mask e) resp e h refl)

  panic-Passes :
      (mc : MiddlewareContext) (p : Text) → Passes mc (panic p) (ok (masked mc (panic_error p)))
  unfolding masked mask_error
  panic-Passes mc p =
      (λ e. rw (e, masked) refl, λ n. rw (is_empty_ne mc.id n, masked) (_, refl, refl, refl))

  after_next-Passes :
      IsQuiet m.on_error
      → (mc : MiddlewareContext) (r : Outcome ⊥ (Option Response)) (s : S)
      → Passes mc r (after_next mc r s).0
  after_next-Passes q mc (ok none) s = refl
  after_next-Passes q mc (ok (some resp)) s = after_error-Passes q mc resp resp.error s refl
  after_next-Passes q mc (err e) s = e
  after_next-Passes q mc (panic p) s = rw (deferred_quiet q mc p s) (panic-Passes mc p)

  -- A chain behind ErrorHandling, with no OnError or one that does not panic itself, never panics. Every
  -- error of its answer that has the internal code, or under MaskAll any code, has the configured message,
  -- and data only if errors are included (with their message then in the data). Otherwise the answer is
  -- that of the rest of the chain: whether there is one, its id, its result and the code of its error, and
  -- all of it where the error is not to be masked. A panic is answered by an internal error under the
  -- request's id, for a notification by nothing.
  pub error_handling_masks :
      IsQuiet m.on_error
      → (ms : List (Middleware S)) (final : Option (Handler S)) (mc : MiddlewareContext) (s : S)
      → IsMasked (chain_then (error_handling ∷ ms) final mc s).0
        × Passes mc (chain_then ms final mc s).0 (chain_then (error_handling ∷ ms) final mc s).0
  unfolding error_handling
  error_handling_masks q ms final mc s =
      let run = chain_then ms final mc s in
      rw (chain_then-func (λ mc next s. after_next mc (next mc s).0 (next mc s).1) ms final mc)
        (after_next-IsMasked q mc run.0 run.1, after_next-Passes q mc run.0 run.1)
