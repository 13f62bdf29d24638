-- ===== src/Auth/Jwt/Keys.antt =====
-- auth/jwt.go: the key of a JSON web key set that a header asks for.
use mathlib.Core.List.{reverse, foldl}
use fastmcp.Prelude.{
  ℕ, ◌+◌, ◌*◌, ◌%◌, ◌^◌, Text, txt, text_eq, is_empty, true, false, not, ◌||◌, ◌++◌, List, [], ◌∷◌,
  Option, none, some, done, failed, ◌==◌, if◌then◌else◌,
}
use fastmcp.Auth.{invalid_token, other_error, Verified, accepted, rejected}
use fastmcp.Auth.Jwt.Config.{RsaKey, Crypto, Jwk, JwtVerifier}

-- the loop of rsaKey and hmacKey
unfoldable pub candidates : Text → Text → List Jwk → List Jwk
candidates kty kid [] = []
candidates kty kid (key ∷ keys) =
    let rest = candidates kty kid keys in
    if not (text_eq key.kty kty)
    then rest
    else if is_empty kid || text_eq key.kid kid
    then key ∷ rest
    else rest

-- which candidate is taken: without a kid there must be one alone
abbrev pub choose : Text → Text → List Jwk → Verified Jwk
choose kty kid [] = rejected (invalid_token (txt "no " ++ (kty ++ (txt " key for kid " ++ kid))))
choose kty kid (key ∷ []) = accepted key
choose kty kid (key ∷ other ∷ rest) =
    if is_empty kid
    then rejected (invalid_token (txt "ambiguous key set, kid required"))
    else accepted key

abbrev pub drop_equals : Text → Text
drop_equals [] = []
drop_equals (c ∷ s) = elim (c == b'=') [ true ↦ drop_equals s | false ↦ c ∷ s ]

-- strings.TrimRight(s, "=")
abbrev pub trim_equals : Text → Text
trim_equals s = reverse (drop_equals (reverse s))

-- `e = e<<8 | int(b)`, in 64 bits
abbrev pub exponent_of : Text → ℕ
exponent_of bytes = foldl (λ e b. (e * 256 + b) % 2 ^ 64) 0 bytes

module _ (crypto : Crypto) where
  -- rsaPublicKey
  unfoldable pub rsa_public_key : Jwk → Verified RsaKey
  rsa_public_key key = elim (crypto.base64url (trim_equals key.n)) [
    | failed m ↦ rejected (invalid_token (txt "bad RSA modulus: " ++ m))
    | done modulus ↦ elim (crypto.base64url (trim_equals key.e)) [
      | failed m ↦ rejected (invalid_token (txt "bad RSA exponent: " ++ m))
      | done bytes ↦
          if exponent_of bytes == 0
          then rejected (invalid_token (txt "zero RSA exponent"))
          else accepted (record { modulus = modulus; exponent = exponent_of bytes })
    ]
  ]

  -- JWKSet.rsaKey and JWKSet.hmacKey
  unfoldable pub set_rsa_key : Text → List Jwk → Verified RsaKey
  unfolding candidates rsa_public_key
  set_rsa_key kid keys = elim (choose (txt "RSA") kid (candidates (txt "RSA") kid keys)) [
    | rejected e ↦ rejected e
    | accepted key ↦ rsa_public_key key
  ]

  unfoldable pub set_hmac_key : Text → List Jwk → Verified Text
  unfolding candidates
  set_hmac_key kid keys = elim (choose (txt "oct") kid (candidates (txt "oct") kid keys)) [
    | rejected e ↦ rejected e
    | accepted key ↦ elim (crypto.base64url (trim_equals key.k)) [
      | failed m ↦ rejected (other_error m)
      | done secret ↦ accepted secret
    ]
  ]

  -- the key of an algorithm: the verifier's own, or one of its set
  abbrev pub from_set :
      {K : Type 0} → (List Jwk → Verified K) → Text → Option (List Jwk) → Verified K
  from_set pick missing none = rejected (invalid_token missing)
  from_set pick missing (some keys) = pick keys

  abbrev pub hmac_key_of : JwtVerifier → Text → Verified Text
  hmac_key_of v kid = elim v.hmac_secret [
    | some secret ↦ accepted secret
    | none ↦ from_set (set_hmac_key kid) (txt "no HMAC secret configured") v.jwks
  ]

  abbrev pub rsa_key_of : JwtVerifier → Text → Verified RsaKey
  rsa_key_of v kid = elim v.rsa_key [
    | some key ↦ accepted key
    | none ↦ from_set (set_rsa_key kid) (txt "no RSA key configured") v.jwks
  ]
