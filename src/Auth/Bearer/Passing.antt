-- ===== src/Auth/Bearer/Passing.antt =====
-- Which requests pass BearerMiddleware of auth/middleware.go.
use fastmcp.Prelude.{Text, txt, All, true, Option, none, some, ◌≡◌, ◌↔◌, refl, ap}
use fastmcp.Auth.{AuthError, Verified, accepted, rejected, AccessToken, has_scope, require_scopes}
use fastmcp.Auth.Scopes.{require_scopes_iff}
use fastmcp.Auth.Bearer.{
  BearerConfig, passed, bearer_token, write_challenge, scoped, verified, bearer_middleware,
}

module _ {R : Type 0} (error_text : AuthError → Text) (cfg : BearerConfig)
    (next : AccessToken → R) where
  scoped-passed :
      (tok : AccessToken) (o : Option AuthError) (r : R)
      → (scoped error_text cfg next tok o ≡ passed r) ↔ ((o ≡ none) × (next tok ≡ r))
  unfolding write_challenge
  scoped-passed tok none r = (λ e. (refl, cc e), λ h. ap passed h.1)
  scoped-passed tok (some x) r =
      (λ e. let clash : ⊥ = cc e in absurd clash, λ h. let clash : ⊥ = cc h.0 in absurd clash)

  -- a token of the verifier with the scopes, and the handler's answer to it
  abbrev pub Passes : Verified AccessToken → R → Type 0
  Passes v r =
      (tok : AccessToken) × (v ≡ accepted tok)
      × All (λ s. has_scope (some tok) s ≡ true) cfg.required_scopes
      × (next tok ≡ r)

  verified-Passes :
      (v : Verified AccessToken) (r : R) → verified error_text cfg next v ≡ passed r → Passes v r
  unfolding write_challenge
  verified-Passes (rejected e) r h = let clash : ⊥ = cc h in absurd clash
  verified-Passes (accepted tok) r h =
      let (ok, same) = (scoped-passed tok (require_scopes (some tok) cfg.required_scopes) r).0 h in
      (tok, refl, (require_scopes_iff (some tok) cfg.required_scopes).0 ok, same)

  verified-passed :
      (v : Verified AccessToken) (r : R) → Passes v r → verified error_text cfg next v ≡ passed r
  verified-passed v r (tok, at, scopes, same) = rw at (
      (scoped-passed tok (require_scopes (some tok) cfg.required_scopes) r).1
        ((require_scopes_iff (some tok) cfg.required_scopes).1 scopes, same))

  of_header :
      (verify : Text → Verified AccessToken) (o : Verified Text) (r : R)
      → elim o [
        | rejected e ↦ write_challenge cfg 401 (txt "invalid_request") (error_text e)
        | accepted token ↦ verified error_text cfg next (verify token)
      ]
        ≡ passed r
      → (token : Text) × (o ≡ accepted token) × Passes (verify token) r
  unfolding write_challenge
  of_header verify (rejected e) r h = let clash : ⊥ = cc h in absurd clash
  of_header verify (accepted token) r h = (token, refl, verified-Passes (verify token) r h)

  -- A request reaches the handler exactly if its header has a bearer token, which the verifier accepts
  -- and which has every scope asked for; the handler gets the token that the verifier made.
  pub bearer_middleware-passed_iff :
      (verify : Text → Verified AccessToken) (header : Text) (r : R)
      → (bearer_middleware error_text cfg next verify header ≡ passed r)
        ↔ ((token : Text) × (bearer_token header ≡ accepted token) × Passes (verify token) r)
  unfolding bearer_middleware
  bearer_middleware-passed_iff verify header r = (
    λ h. of_header verify (bearer_token header) r h,
    λ h. rw (h.1, bearer_middleware) (verified-passed (verify h.0) r h.2),
  )
