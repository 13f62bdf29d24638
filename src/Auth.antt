-- ===== src/Auth.antt =====
-- auth/token.go: access tokens, their scopes and validity, and the table of static tokens. A time is
-- the number of nanoseconds since Go's zero time. An error keeps which of the sentinels it wraps, and of its
-- text what is not quoted or formatted.
pub mod Scopes
pub mod Jwt
pub mod Bearer
pub mod Protect
use fastmcp.Prelude.{
  ℕ, Text, txt, text_eq, is_empty, Bool, true, false, not, ◌&&◌, ◌||◌, ◌++◌, List, [], ◌∷◌, Option,
  none, some, ltb, if◌then◌else◌,
}
use fastmcp.Prelude.Dict.{Dict, get, put}
use fastmcp.Json.{Members, no_members}

pub data AuthError : Type 0 where
  no_token : AuthError
  invalid_token : Text → AuthError
  expired_token : Text → AuthError
  insufficient_scope : Text → AuthError
  other_error : Text → AuthError

-- `(A, error)`
pub data Verified (A : Type 0) : Type 0 where
  accepted : A → Verified A
  rejected : AuthError → Verified A

pub record AccessToken : Type 0 where
  pub token : Text
  pub subject : Text
  pub client_id : Text
  pub issuer : Text
  pub audience : List Text
  pub scopes : List Text
  pub claims : Members
  pub issued_at : ℕ
  pub not_before : ℕ
  pub expires_at : ℕ

abbrev pub empty_token : AccessToken
empty_token = record {
  token = [];
  subject = [];
  client_id = [];
  issuer = [];
  audience = [];
  scopes = [];
  claims = no_members;
  issued_at = 0;
  not_before = 0;
  expires_at = 0;
}

-- the loop of HasScope, and containsString of auth/jwt.go
unfoldable pub contains_string : List Text → Text → Bool
contains_string [] want = false
contains_string (s ∷ ss) want = if text_eq s want then true else contains_string ss want

-- HasScope of a token or of nil
abbrev pub has_scope : Option AccessToken → Text → Bool
has_scope none scope = false
has_scope (some t) scope = contains_string t.scopes scope

-- IsZero
abbrev pub is_zero : ℕ → Bool
is_zero t = not (ltb 0 t)

-- Expired of a token or of nil
unfoldable pub expired : ℕ → Option AccessToken → Bool
expired now none = true
expired now (some t) =
    if not (is_zero t.expires_at) && not (ltb now t.expires_at)
    then true
    else not (is_zero t.not_before) && ltb now t.not_before

-- the loop of RequireScopes
unfoldable pub first_missing : Option AccessToken → List Text → Option Text
first_missing tok [] = none
first_missing tok (want ∷ scopes) =
    if has_scope tok want then first_missing tok scopes else some want

-- RequireScopes: its error, or nil
unfoldable pub require_scopes : Option AccessToken → List Text → Option AuthError
unfolding first_missing contains_string
require_scopes tok [] = none
require_scopes none (want ∷ scopes) = some (insufficient_scope (txt "no token"))
require_scopes (some t) (want ∷ scopes) = elim (first_missing (some t) (want ∷ scopes)) [
  | none ↦ none
  | some missing ↦ some (insufficient_scope (txt "missing " ++ missing))
]

-- StaticTokenVerifier: a table of tokens
abbrev pub named : Text → AccessToken → AccessToken
named raw t = if is_empty t.token then record t { token = raw } else t

abbrev pub or_blank : Option AccessToken → AccessToken
or_blank none = empty_token
or_blank (some t) = t

unfoldable pub set_token : Text → Option AccessToken → Dict AccessToken → Dict AccessToken
set_token raw tok tokens = put raw (named raw (or_blank tok)) tokens

-- NewStaticTokenVerifier, over the caller's map
unfoldable pub new_static_token_verifier :
    Dict (Option AccessToken) → Dict AccessToken → Dict AccessToken
unfolding set_token
new_static_token_verifier [] tokens = tokens
new_static_token_verifier ((raw, tok) ∷ rest) tokens =
    new_static_token_verifier rest (set_token raw tok tokens)

-- StaticTokenVerifier.Verify at a time
unfoldable pub verify_static : Dict AccessToken → ℕ → Text → Verified AccessToken
unfolding expired
verify_static tokens now token =
    if is_empty token then rejected no_token else elim (get token tokens) [
      | none ↦ rejected (invalid_token (txt "unknown token"))
      | some t ↦ if expired now (some t) then rejected (expired_token []) else accepted t
    ]
