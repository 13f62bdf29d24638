-- ===== src/Auth/Bearer.antt =====
-- auth/middleware.go: the check of the Authorization header before a handler. The verifier and the text
-- of an error are parameters; what the handler does with a token is any value. A header is ASCII.
pub mod Quoting
pub mod Passing
use fastmcp.Prelude.{
  ℕ, ◌+◌, Text, txt, text_eq, is_empty, Bool, true, false, not, ◌&&◌, ◌++◌, List, [], ◌∷◌, Option,
  none, some, leb, ◌==◌, if◌then◌else◌,
}
use fastmcp.Uri.Placeholders.{trim_space}
use fastmcp.Auth.{
  AuthError, no_token, invalid_token, expired_token, insufficient_scope, other_error, Verified,
  accepted, rejected, AccessToken, require_scopes,
}

-- middlewareConfig
pub record BearerConfig : Type 0 where
  pub realm : Text
  pub resource_meta : Text
  pub required_scopes : List Text

abbrev pub default_config : BearerConfig
default_config = record { realm = txt "mcp"; resource_meta = []; required_scopes = [] }

abbrev pub with_realm : Text → BearerConfig → BearerConfig
with_realm realm c = record c { realm = realm }

abbrev pub with_resource_metadata_url : Text → BearerConfig → BearerConfig
with_resource_metadata_url url c = record c { resource_meta = url }

abbrev pub with_middleware_scopes : List Text → BearerConfig → BearerConfig
with_middleware_scopes scopes c = record c { required_scopes = scopes }

-- the answer of writeChallenge, or what the handler behind it answers
pub data Guarded (R : Type 0) : Type 0 where
  -- status, WWW-Authenticate, and the two members of the body
  challenged : ℕ → Text → Text → Text → Guarded R
  passed : R → Guarded R

-- ASCII letters of either case
abbrev pub lower : ℕ → ℕ
lower c = if leb b'A' c && leb c b'Z' then c + 32 else c

-- what follows a prefix, if the text starts with it in any case
unfoldable pub after_prefix : Text → Text → Verified Text
after_prefix [] s = accepted s
after_prefix (c ∷ p) [] = rejected (other_error (txt "authorization scheme is not Bearer"))
after_prefix (c ∷ p) (d ∷ s) =
    if lower d == c
    then after_prefix p s
    else rejected (other_error (txt "authorization scheme is not Bearer"))

abbrev pub trimmed_token : Text → Verified Text
trimmed_token s = if is_empty (trim_space s) then rejected no_token else accepted (trim_space s)

-- bearerToken of the value of the header, `[]` if it is missing
unfoldable pub bearer_token : Text → Verified Text
unfolding after_prefix
bearer_token h = if is_empty h then rejected no_token else elim (after_prefix (txt "bearer ") h) [
  | rejected e ↦ rejected e
  | accepted s ↦ trimmed_token s
]

abbrev pub status_for_error : AuthError → ℕ
status_for_error (insufficient_scope m) = 403
status_for_error e = 401

abbrev pub error_code : AuthError → Text
error_code (insufficient_scope m) = txt "insufficient_scope"
error_code no_token = txt "invalid_request"
error_code e = txt "invalid_token"

-- strings.ReplaceAll of one byte
unfoldable pub replace_byte : ℕ → Text → Text → Text
replace_byte b with_text [] = []
replace_byte b with_text (c ∷ s) =
    if c == b then with_text ++ replace_byte b with_text s else c ∷ replace_byte b with_text s

unfoldable pub escape_quoted : Text → Text
unfolding replace_byte
escape_quoted s = replace_byte b'"' (b'\\' ∷ b'"' ∷ []) (replace_byte b'\\' (b'\\' ∷ b'\\' ∷ []) s)

-- writeParam of a name and a value
abbrev pub param : Text → Text → Text
param k v = k ++ (txt "=\"" ++ (escape_quoted v ++ b'"' ∷ []))

-- the parameters that are not empty, each with the separator before it
unfoldable pub params : Text → List (Text × Text) → Text
unfolding escape_quoted
params sep [] = []
params sep ((k, v) ∷ ps) = elim (is_empty v) [
  | true ↦ params sep ps
  | false ↦ sep ++ (param k v ++ params (txt ", ") ps)
]

unfoldable pub write_challenge : {R : Type 0} → BearerConfig → ℕ → Text → Text → Guarded R
unfolding params
write_challenge cfg status code desc =
    challenged status
      (txt "Bearer"
        ++ params (txt " ") (
            (txt "realm", cfg.realm)
            ∷ (txt "error", code)
            ∷ (txt "error_description", desc)
            ∷ (txt "resource_metadata", cfg.resource_meta)
            ∷ []))
      code desc

module _ {R : Type 0} (error_text : AuthError → Text) (cfg : BearerConfig)
    (next : AccessToken → R) where
  abbrev pub scoped : AccessToken → Option AuthError → Guarded R
  scoped tok none = passed (next tok)
  scoped tok (some e) = write_challenge cfg 403 (txt "insufficient_scope") (error_text e)

  abbrev pub verified : Verified AccessToken → Guarded R
  verified (rejected e) = write_challenge cfg (status_for_error e) (error_code e) (error_text e)
  verified (accepted tok) = scoped tok (require_scopes (some tok) cfg.required_scopes)

  -- BearerMiddleware at the value of an Authorization header
  unfoldable pub bearer_middleware : (Text → Verified AccessToken) → Text → Guarded R
  unfolding bearer_token write_challenge
  bearer_middleware verify header = elim (bearer_token header) [
    | rejected e ↦ write_challenge cfg 401 (txt "invalid_request") (error_text e)
    | accepted token ↦ verified (verify token)
  ]
