-- ===== src/Auth/Scopes.antt =====
-- What the checks of auth/token.go let through.
use fastmcp.Prelude.{
  ℕ, txt, ◌++◌, ◌≤◌, ◌<◌, Text, is_empty, All, true, false, List, [], ◌∷◌, Option, none, some, inl,
  inr, ◌≡◌, ◌⊎◌, ◌↔◌, refl, ap, arith, if◌then◌else◌, Bool-cases,
}
use fastmcp.Prelude.Dict.{Dict, get}
use fastmcp.Auth.{
  invalid_token, expired_token, insufficient_scope, AccessToken, accepted, rejected, has_scope,
  expired, first_missing, require_scopes, verify_static,
}

-- the instants at which a token is good
pub record IsLive (now : ℕ) (t : AccessToken) : Type 0 where
  pub unexpired : (t.expires_at ≡ 0) ⊎ (now < t.expires_at)
  pub begun : (t.not_before ≡ 0) ⊎ (t.not_before ≤ now)

-- A token is expired at an instant exactly if the instant is outside its window, a bound of 0 being
-- none.
pub expired-IsLive : (now : ℕ) (t : AccessToken) → (expired now (some t) ≡ false) ↔ IsLive now t
unfolding expired
expired-IsLive now t = (
  λ h. record { unexpired = ground arith; begun = ground arith },
  λ h. ground (arith, h.unexpired, h.begun),
)

first_missing_iff :
    (tok : Option AccessToken) (scopes : List Text)
    → (first_missing tok scopes ≡ none) ↔ All (λ s. has_scope tok s ≡ true) scopes
unfolding first_missing
first_missing_iff tok [] = (λ _. tt, λ _. refl)
first_missing_iff tok (s ∷ ss) = elim (Bool-cases (has_scope tok s)) [
  | inl h ↦
      rw h (λ e. (refl, (first_missing_iff tok ss).0 e), λ a. (first_missing_iff tok ss).1 a.1)
  | inr h ↦
      rw h
        (λ e. let clash : ⊥ = cc e in absurd clash, λ a. let clash : ⊥ = cc (a.0) in absurd clash)
]

no_error :
    (o : Option Text)
    → elim o [ none ↦ none | some m ↦ some (insufficient_scope (txt "missing " ++ m)) ] ≡ none
    → o ≡ none
no_error none e = refl
no_error (some m) e = let clash : ⊥ = cc e in absurd clash

-- RequireScopes returns nil exactly if the token has every scope; nil has no scope.
pub require_scopes_iff :
    (tok : Option AccessToken) (scopes : List Text)
    → (require_scopes tok scopes ≡ none) ↔ All (λ s. has_scope tok s ≡ true) scopes
unfolding require_scopes
require_scopes_iff tok [] = (λ _. tt, λ _. refl)
require_scopes_iff none (s ∷ ss) = (λ e. cc e, λ a. cc (a.0))
require_scopes_iff (some t) (s ∷ ss) = (
  λ e. (first_missing_iff (some t) (s ∷ ss)).0 (no_error (first_missing (some t) (s ∷ ss)) e),
  λ a. rw ((first_missing_iff (some t) (s ∷ ss)).1 a, require_scopes),
)

accepted_if :
    (now : ℕ) (o : Option AccessToken) (t : AccessToken)
    → elim o [
      | none ↦ rejected (invalid_token (txt "unknown token"))
      | some x ↦ if expired now (some x) then rejected (expired_token []) else accepted x
    ]
      ≡ accepted t
    → (o ≡ some t) × (expired now (some t) ≡ false)
accepted_if now none t e = let clash : ⊥ = cc e in absurd clash
accepted_if now (some x) t e = elim (Bool-cases (expired now (some x))) [
  | inl h ↦ let clash : ⊥ = cc (rw h at e) in absurd clash
  | inr h ↦ let same : x ≡ t = cc (rw h at e) in (ap some same, rw (← same) h)
]

-- A static verifier accepts a token exactly if it is not empty, is in the table and is live, and answers
-- what the table has for it.
pub verify_static_iff :
    (tokens : Dict AccessToken) (now : ℕ) (token : Text) (t : AccessToken)
    → (verify_static tokens now token ≡ accepted t)
      ↔ ((is_empty token ≡ false) × (get token tokens ≡ some t) × IsLive now t)
unfolding verify_static
verify_static_iff tokens now [] t = (λ e. cc e, λ h. cc (h.0))
verify_static_iff tokens now (c ∷ s) t = (
  λ e.
      let (found, live) = accepted_if now (get (c ∷ s) tokens) t e in
      (refl, found, (expired-IsLive now t).0 live),
  λ h. rw (h.1, verify_static, (expired-IsLive now t).1 h.2),
)
