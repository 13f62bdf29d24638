-- ===== src/Auth/Jwt/Sound.antt =====
-- What a token that the verifier of auth/jwt.go accepts has shown.
use fastmcp.Prelude.{
  ℕ, ◌+◌, ◌≤◌, ◌<◌, Text, txt, text_eq, text_eq_iff, is_empty, All, true, ◌++◌, List, [], ◌∷◌,
  Option, none, some, Result, done, failed, Bool-cases, inl, inr, ◌≡◌, ◌⊎◌, ◌↔◌, refl, sym, arith,
}
use fastmcp.Json.{Members}
use fastmcp.Uri.{split}
use fastmcp.Uri.Splitting.{join_with-split, join_with}
use fastmcp.Auth.{AuthError, AccessToken, Verified, accepted, rejected, contains_string, has_scope}
use fastmcp.Auth.Scopes.{require_scopes_iff}
use fastmcp.Auth.Jwt.Config.{Header, RsaKey, Crypto, JwtVerifier}
use fastmcp.Auth.Jwt.Keys.{hmac_key_of, rsa_key_of}
use fastmcp.Auth.Jwt.Claims.{build_token, validate_claims}
use fastmcp.Auth.Jwt.{
  check_hmac, check_rsa, verify_signature, checked, claimed, on_signature, verify_parts, verify_jwt,
}

-- Within its window, up to the leeway, for the issuer, the audience and the scopes asked for.
pub record IsValid (v : JwtVerifier) (now : ℕ) (t : AccessToken) : Type 0 where
  pub unexpired : (t.expires_at ≡ 0) ⊎ (now < t.expires_at + v.leeway)
  pub begun : (t.not_before ≡ 0) ⊎ (t.not_before ≤ now + v.leeway)
  pub issued : (is_empty v.issuer ≡ true) ⊎ (t.issuer ≡ v.issuer)
  pub meant : (is_empty v.audience ≡ true) ⊎ (contains_string t.audience v.audience ≡ true)
  pub scoped : All (λ s. has_scope (some t) s ≡ true) v.required_scopes

-- The claims of a token pass exactly if the token is valid.
pub validate_claims_iff :
    (v : JwtVerifier) (now : ℕ) (t : AccessToken)
    → (validate_claims v now t ≡ none) ↔ IsValid v now t
unfolding validate_claims
validate_claims_iff v now t = (
  λ h. record {
    unexpired = ground arith;
    begun = ground arith;
    issued = ground (arith, text_eq_iff t.issuer v.issuer);
    meant = ground arith;
    scoped = (require_scopes_iff (some t) v.required_scopes).0 (ground arith);
  },
  λ h.
      let scopes = (require_scopes_iff (some t) v.required_scopes).1 h.scoped in
      ground
        (arith, h.unexpired, h.begun, h.issued, h.meant, text_eq_iff t.issuer v.issuer, scopes),
)

module _ (crypto : Crypto) where
  -- A signature of the algorithm of the header, under the verifier's key for the header's key id.
  abbrev pub IsSigned : JwtVerifier → Header → Text → Text → Type 0
  IsSigned v hdr input sig =
      ((hdr.alg ≡ txt "HS256")
        × ((secret : Text) × (hmac_key_of crypto v hdr.kid ≡ accepted secret)
            × (crypto.hmac_sha256 secret input ≡ sig)))
      ⊎ ((hdr.alg ≡ txt "RS256")
          × ((key : RsaKey) × (rsa_key_of crypto v hdr.kid ≡ accepted key)
              × (crypto.rsa_verify key input sig ≡ true)))

  check_hmac-IsSigned :
      (input sig : Text) (o : Verified Text)
      → check_hmac crypto input sig o ≡ none
      → (secret : Text) × (o ≡ accepted secret) × (crypto.hmac_sha256 secret input ≡ sig)
  check_hmac-IsSigned input sig (rejected e) h = let clash : ⊥ = cc h in absurd clash
  check_hmac-IsSigned input sig (accepted k) h =
      elim (Bool-cases (text_eq (crypto.hmac_sha256 k input) sig)) [
        | inl e ↦ (k, refl, (text_eq_iff _ _).0 e)
        | inr e ↦ let clash : ⊥ = cc (rw e at h) in absurd clash
      ]

  check_rsa-IsSigned :
      (input sig : Text) (o : Verified RsaKey)
      → check_rsa crypto input sig o ≡ none
      → (key : RsaKey) × (o ≡ accepted key) × (crypto.rsa_verify key input sig ≡ true)
  check_rsa-IsSigned input sig (rejected e) h = let clash : ⊥ = cc h in absurd clash
  check_rsa-IsSigned input sig (accepted k) h = elim (Bool-cases (crypto.rsa_verify k input sig)) [
    | inl e ↦ (k, refl, e)
    | inr e ↦ let clash : ⊥ = cc (rw e at h) in absurd clash
  ]

  verify_signature-IsSigned :
      (v : JwtVerifier) (hdr : Header) (input sig : Text)
      → verify_signature crypto v hdr input sig ≡ none
      → IsSigned v hdr input sig
  unfolding verify_signature
  verify_signature-IsSigned v hdr input sig h = elim (Bool-cases (text_eq hdr.alg (txt "HS256"))) [
    | inl e ↦ inl (
      (text_eq_iff _ _).0 e,
      check_hmac-IsSigned input sig (hmac_key_of crypto v hdr.kid) (rw e at h),
    )
    | inr e ↦ elim (Bool-cases (text_eq hdr.alg (txt "RS256"))) [
      | inl e2 ↦ inr (
        (text_eq_iff _ _).0 e2,
        check_rsa-IsSigned input sig (rsa_key_of crypto v hdr.kid) (rw e2 at (rw e at h)),
      )
      | inr e2 ↦ let clash : ⊥ = cc (rw e2 at (rw e at h)) in absurd clash
    ]
  ]

  checked-accepted :
      (tok t : AccessToken) (o : Option AuthError)
      → checked crypto tok o ≡ accepted t
      → (o ≡ none) × (tok ≡ t)
  checked-accepted tok t none h = (refl, cc h)
  checked-accepted tok t (some e) h = let clash : ⊥ = cc h in absurd clash

  -- a step that decodes or fails
  decodes :
      {A : Type 0} (r : Result A) (on_error : Text → AuthError) (f : A → Verified AccessToken)
      (t : AccessToken)
      → elim r [ failed m ↦ rejected (on_error m) | done a ↦ f a ] ≡ accepted t
      → (a : A) × (r ≡ done a) × (f a ≡ accepted t)
  decodes (failed m) on_error f t h = let clash : ⊥ = cc h in absurd clash
  decodes (done a) on_error f t h = (a, refl, h)

  on_signature-accepted :
      (v : JwtVerifier) (now : ℕ) (token payload : Text) (o : Option AuthError) (t : AccessToken)
      → on_signature crypto v now token payload o ≡ accepted t
      → (o ≡ none) × (claimed crypto v now token (crypto.claims_json payload) ≡ accepted t)
  on_signature-accepted v now token payload none t h = (refl, h)
  on_signature-accepted v now token payload (some e) t h = let clash : ⊥ = cc h in absurd clash

  claimed-accepted :
      (v : JwtVerifier) (now : ℕ) (token : Text) (r : Result Members) (t : AccessToken)
      → claimed crypto v now token r ≡ accepted t
      → (claims : Members) × (r ≡ done claims)
        × (build_token crypto v token claims ≡ t)
        × (validate_claims v now t ≡ none)
  claimed-accepted v now token (failed m) t h = let clash : ⊥ = cc h in absurd clash
  claimed-accepted v now token (done claims) t h =
      let (valid, same) =
        checked-accepted (build_token crypto v token claims) t
          (validate_claims v now (build_token crypto v token claims)) h in
      (claims, refl, same, rw (← same) valid)

  -- What stands behind an accepted token: its segments, decoded, with the signature checked over the
  -- first two as they were sent, and the claims within their bounds.
  pub record IsVerified (v : JwtVerifier) (now : ℕ) (token : Text) (t : AccessToken) : Type 0 where
    pub first : Text
    pub second : Text
    pub third : Text
    pub hdr : Header
    pub header_bytes : Text
    pub payload : Text
    pub sig : Text
    pub claims : Members
    pub segments : token ≡ first ++ b'.' ∷ (second ++ b'.' ∷ third)
    pub header_decoded : crypto.base64url first ≡ done header_bytes
    pub header_parsed : crypto.header_json header_bytes ≡ done hdr
    pub payload_decoded : crypto.base64url second ≡ done payload
    pub payload_parsed : crypto.claims_json payload ≡ done claims
    pub sig_decoded : crypto.base64url third ≡ done sig
    pub signed_by_key : IsSigned v hdr (first ++ b'.' ∷ second) sig
    pub built : t ≡ build_token crypto v token claims
    pub valid : IsValid v now t

  verify_parts-IsVerified :
      (v : JwtVerifier) (now : ℕ) (token : Text) (parts : List Text) (t : AccessToken)
      → join_with b'.' parts ≡ token
      → verify_parts crypto v now token parts ≡ accepted t
      → IsVerified v now token t
  unfolding verify_parts
  verify_parts-IsVerified v now token [] t whole h = let clash : ⊥ = cc h in absurd clash
  verify_parts-IsVerified v now token (a ∷ []) t whole h = let clash : ⊥ = cc h in absurd clash
  verify_parts-IsVerified v now token (a ∷ b ∷ []) t whole h = let clash : ⊥ = cc h in absurd clash
  verify_parts-IsVerified v now token (a ∷ b ∷ c ∷ d ∷ ps) t whole h =
      let clash : ⊥ = cc h in absurd clash
  verify_parts-IsVerified v now token (a ∷ b ∷ c ∷ []) t whole h =
      let (bytes, e1, h1) = decodes (crypto.base64url a) _ _ t h in
      let (hdr, e2, h2) = decodes (crypto.header_json bytes) _ _ t h1 in
      let (payload, e3, h3) = decodes (crypto.base64url b) _ _ t h2 in
      let (sig, e4, h4) = decodes (crypto.base64url c) _ _ t h3 in
      let (ok, h5) = on_signature-accepted v now token payload _ t h4 in
      let (claims, e5, same, valid) =
        claimed-accepted v now token (crypto.claims_json payload) t h5 in
      record {
        first = a;
        second = b;
        third = c;
        hdr = hdr;
        header_bytes = bytes;
        payload = payload;
        sig = sig;
        claims = claims;
        segments = sym whole;
        header_decoded = e1;
        header_parsed = e2;
        payload_decoded = e3;
        payload_parsed = e5;
        sig_decoded = e4;
        signed_by_key = verify_signature-IsSigned v hdr (a ++ b'.' ∷ b) sig ok;
        built = sym same;
        valid = (validate_claims_iff v now t).0 valid;
      }

  -- A token that is accepted has three segments, which decode; its signature is right for the algorithm
  -- that its header names, HS256 or RS256, under a key of the verifier; the answer is built from its
  -- claims; and these are within the window, the issuer, the audience and the scopes asked for.
  pub verify_jwt-IsVerified :
      (v : JwtVerifier) (now : ℕ) (token : Text) (t : AccessToken)
      → verify_jwt crypto v now token ≡ accepted t
      → IsVerified v now token t
  unfolding verify_jwt
  verify_jwt-IsVerified v now [] t h = let clash : ⊥ = cc h in absurd clash
  verify_jwt-IsVerified v now (c ∷ s) t h =
      verify_parts-IsVerified v now (c ∷ s) (split b'.' (c ∷ s)) t (join_with-split b'.' (c ∷ s)) h
