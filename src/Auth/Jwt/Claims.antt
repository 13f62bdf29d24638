-- ===== src/Auth/Jwt/Claims.antt =====
-- auth/jwt.go: the access token built from the claims, and the checks on it. White space is ASCII.
use fastmcp.Prelude.{
  ℕ, ◌+◌, Text, txt, text_eq, is_empty, true, false, not, ◌&&◌, ◌++◌, List, [], ◌∷◌, Option, some,
  ltb, if◌then◌else◌,
}
use fastmcp.Json.{Json, number, string, array, Items, no_items, item_then, Members, lookup}
use fastmcp.Uri.Placeholders.{is_space}
use fastmcp.Auth.{
  AuthError, invalid_token, expired_token, AccessToken, contains_string, is_zero, require_scopes,
}
use fastmcp.Auth.Jwt.Config.{Crypto, JwtVerifier}

-- strings.Fields, with the word so far
abbrev pub flush : Text → List Text → List Text
flush [] ws = ws
flush (c ∷ w) ws = (c ∷ w) ∷ ws

unfoldable pub fields_from : Text → Text → List Text
fields_from word [] = flush word []
fields_from word (c ∷ s) = elim (is_space c) [
  | true ↦ flush word (fields_from [] s)
  | false ↦ fields_from (word ++ c ∷ []) s
]

-- the strings of an array
unfoldable pub strings_of : Items → List Text
strings_of no_items = []
strings_of (item_then (string s) vs) = s ∷ strings_of vs
strings_of (item_then v vs) = strings_of vs

abbrev pub audience_claim : Json → List Text
audience_claim (string s) = if is_empty s then [] else s ∷ []
audience_claim (array vs) = strings_of vs
audience_claim v = []

abbrev pub scope_values : Json → List Text
scope_values (string s) = fields_from [] s
scope_values (array vs) = strings_of vs
scope_values v = []

abbrev pub text_claim : Json → Text
text_claim (string s) = s
text_claim v = []

-- stringClaim
abbrev pub string_claim : Members → Text → Text
string_claim claims name = text_claim (lookup name claims)

module _ (crypto : Crypto) where
  abbrev pub time_of : Json → ℕ
  time_of (number bits) = crypto.unix_seconds bits
  time_of v = 0

  -- timeClaim
  abbrev pub time_claim : Members → Text → ℕ
  time_claim claims name = time_of (lookup name claims)

  unfoldable pub build_token : JwtVerifier → Text → Members → AccessToken
  build_token v raw claims = record {
    token = raw;
    subject = string_claim claims (txt "sub");
    client_id =
        if is_empty (string_claim claims (txt "client_id"))
        then string_claim claims (txt "azp")
        else string_claim claims (txt "client_id");
    issuer = string_claim claims (txt "iss");
    audience = audience_claim (lookup (txt "aud") claims);
    scopes = scope_values (lookup v.scope_claim claims);
    claims = claims;
    issued_at = time_claim claims (txt "iat");
    not_before = time_claim claims (txt "nbf");
    expires_at = time_claim claims (txt "exp");
  }

-- validateClaims: `now.Add(-leeway).Before(exp)` is `now < exp + leeway`
unfoldable pub validate_claims : JwtVerifier → ℕ → AccessToken → Option AuthError
validate_claims v now tok =
    if not (is_zero tok.expires_at) && not (ltb now (tok.expires_at + v.leeway))
    then some (expired_token (txt "exp"))
    else if not (is_zero tok.not_before) && ltb (now + v.leeway) tok.not_before
    then some (expired_token (txt "not valid before"))
    else if not (is_empty v.issuer) && not (text_eq tok.issuer v.issuer)
    then some (invalid_token (txt "issuer not accepted"))
    else if not (is_empty v.audience) && not (contains_string tok.audience v.audience)
    then some (invalid_token (txt "audience"))
    else require_scopes (some tok) v.required_scopes
