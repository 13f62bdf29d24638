-- ===== src/Auth/Jwt.antt =====
-- auth/jwt.go: the signature and the segments of a token, and Verify at a time. A nil slice or key is
-- `none`.
pub mod Config
pub mod Keys
pub mod Claims
pub mod Sound
use mathlib.Core.List.{reverse, foldl}
use fastmcp.Prelude.{
  ℕ, ◌+◌, ◌*◌, ◌%◌, ◌^◌, Text, txt, text_eq, is_empty, Bool, true, false, not, ◌&&◌, ◌||◌, ◌++◌,
  List, [], ◌∷◌, Option, none, some, Result, done, failed, ltb, ◌==◌, if◌then◌else◌,
}
use fastmcp.Json.{
  Json, null, boolean, number, string, array, object, Items, no_items, item_then, Members, lookup,
}
use fastmcp.Uri.{split}
use fastmcp.Uri.Placeholders.{is_space}
use fastmcp.Auth.{
  AuthError, no_token, invalid_token, expired_token, other_error, Verified, accepted, rejected,
  AccessToken, contains_string, is_zero, require_scopes,
}
use fastmcp.Auth.Jwt.Config.{
  Header, RsaKey, Crypto, Jwk, JwtVerifier, with_hmac_secret, with_rsa_public_key, with_jwks,
  with_issuer, with_audience, with_required_scopes, with_scope_claim, with_leeway, configure,
  new_jwt_verifier,
}
use fastmcp.Auth.Jwt.Keys.{
  candidates, choose, drop_equals, trim_equals, exponent_of, rsa_public_key, set_rsa_key,
  set_hmac_key, from_set, hmac_key_of, rsa_key_of,
}
use fastmcp.Auth.Jwt.Claims.{
  flush, fields_from, strings_of, audience_claim, scope_values, text_claim, string_claim, time_of,
  time_claim, build_token, validate_claims,
}

module _ (crypto : Crypto) where
  abbrev pub check_hmac : Text → Text → Verified Text → Option AuthError
  check_hmac input sig (rejected e) = some e
  check_hmac input sig (accepted secret) =
      if text_eq (crypto.hmac_sha256 secret input) sig
      then none
      else some (invalid_token (txt "HMAC signature mismatch"))

  abbrev pub check_rsa : Text → Text → Verified RsaKey → Option AuthError
  check_rsa input sig (rejected e) = some e
  check_rsa input sig (accepted key) =
      if crypto.rsa_verify key input sig
      then none
      else some (invalid_token (txt "RSA signature invalid"))

  -- verifySignature: its error, or nil
  unfoldable pub verify_signature : JwtVerifier → Header → Text → Text → Option AuthError
  verify_signature v hdr input sig =
      if text_eq hdr.alg (txt "HS256")
      then check_hmac input sig (hmac_key_of crypto v hdr.kid)
      else if text_eq hdr.alg (txt "RS256")
      then check_rsa input sig (rsa_key_of crypto v hdr.kid)
      else some (invalid_token (txt "unsupported alg " ++ hdr.alg))

  abbrev pub checked : AccessToken → Option AuthError → Verified AccessToken
  checked tok none = accepted tok
  checked tok (some e) = rejected e

  abbrev pub claimed : JwtVerifier → ℕ → Text → Result Members → Verified AccessToken
  claimed v now token (failed m) = rejected (invalid_token (txt "bad payload JSON: " ++ m))
  claimed v now token (done claims) =
      let tok = build_token crypto v token claims in checked tok (validate_claims v now tok)

  abbrev pub on_signature : JwtVerifier → ℕ → Text → Text → Option AuthError → Verified AccessToken
  on_signature v now token payload none = claimed v now token (crypto.claims_json payload)
  on_signature v now token payload (some e) = rejected e

  -- the segments of a token
  unfoldable pub verify_parts : JwtVerifier → ℕ → Text → List Text → Verified AccessToken
  verify_parts v now token (h ∷ p ∷ s ∷ []) = elim (crypto.base64url h) [
    | failed m ↦ rejected (invalid_token (txt "bad header encoding: " ++ m))
    | done header_bytes ↦ elim (crypto.header_json header_bytes) [
      | failed m ↦ rejected (invalid_token (txt "bad header JSON: " ++ m))
      | done hdr ↦ elim (crypto.base64url p) [
        | failed m ↦ rejected (invalid_token (txt "bad payload encoding: " ++ m))
        | done payload ↦ elim (crypto.base64url s) [
          | failed m ↦ rejected (invalid_token (txt "bad signature encoding: " ++ m))
          | done sig ↦ on_signature v now token payload (verify_signature v hdr (h ++ b'.' ∷ p) sig)
        ]
      ]
    ]
  ]
  verify_parts v now token parts = rejected (invalid_token (txt "expected 3 JWT segments"))

  -- Verify at a time
  unfoldable pub verify_jwt : JwtVerifier → ℕ → Text → Verified AccessToken
  unfolding verify_parts split
  verify_jwt v now token =
      if is_empty token then rejected no_token else verify_parts v now token (split b'.' token)
