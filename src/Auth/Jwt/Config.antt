-- ===== src/Auth/Jwt/Config.antt =====
-- auth/jwt.go: the verifier and its options, the keys it holds, and the code it calls: base64, JSON, HMAC,
-- RSA and the conversion of a float64 to a time are parameters, the record Crypto.
use fastmcp.Prelude.{ℕ, Text, txt, Bool, List, [], ◌∷◌, Option, none, some, Result}
use fastmcp.Json.{Members}

pub record Header : Type 0 where
  pub alg : Text
  pub typ : Text
  pub kid : Text

pub record RsaKey : Type 0 where
  -- big-endian bytes
  pub modulus : Text
  pub exponent : ℕ

pub record Crypto : Type 0 where
  pub base64url : Text → Result Text
  pub header_json : Text → Result Header
  pub claims_json : Text → Result Members
  -- a key and a message
  pub hmac_sha256 : Text → Text → Text
  -- VerifyPKCS1v15 of the SHA-256 of a message, and a signature
  pub rsa_verify : RsaKey → Text → Text → Bool
  pub unix_seconds : ℕ → ℕ

pub record Jwk : Type 0 where
  pub kty : Text
  pub kid : Text
  pub use_for : Text
  pub alg : Text
  pub n : Text
  pub e : Text
  pub k : Text

pub record JwtVerifier : Type 0 where
  pub hmac_secret : Option Text
  pub rsa_key : Option RsaKey
  pub jwks : Option (List Jwk)
  pub issuer : Text
  pub audience : Text
  pub required_scopes : List Text
  pub scope_claim : Text
  -- nanoseconds
  pub leeway : ℕ

abbrev pub with_hmac_secret : Text → JwtVerifier → JwtVerifier
with_hmac_secret secret v = record v { hmac_secret = some secret }

abbrev pub with_rsa_public_key : RsaKey → JwtVerifier → JwtVerifier
with_rsa_public_key key v = record v { rsa_key = some key }

abbrev pub with_jwks : List Jwk → JwtVerifier → JwtVerifier
with_jwks set v = record v { jwks = some set }

abbrev pub with_issuer : Text → JwtVerifier → JwtVerifier
with_issuer iss v = record v { issuer = iss }

abbrev pub with_audience : Text → JwtVerifier → JwtVerifier
with_audience aud v = record v { audience = aud }

abbrev pub with_required_scopes : List Text → JwtVerifier → JwtVerifier
with_required_scopes scopes v = record v { required_scopes = scopes }

abbrev pub with_scope_claim : Text → JwtVerifier → JwtVerifier
with_scope_claim name v = record v { scope_claim = name }

abbrev pub with_leeway : ℕ → JwtVerifier → JwtVerifier
with_leeway d v = record v { leeway = d }

-- the loop of NewJWTVerifier over its options
abbrev pub configure : List (JwtVerifier → JwtVerifier) → JwtVerifier → JwtVerifier
configure [] v = v
configure (opt ∷ opts) v = configure opts (opt v)

abbrev pub new_jwt_verifier : List (JwtVerifier → JwtVerifier) → JwtVerifier
new_jwt_verifier opts = configure opts (record {
  hmac_secret = none;
  rsa_key = none;
  jwks = none;
  issuer = [];
  audience = [];
  required_scopes = [];
  scope_claim = txt "scope";
  leeway = 0;
})
