-- ===== src/Tests/Tokens.antt =====
-- Runs of the verifiers and the bearer middleware of auth.
use fastmcp.Prelude.{Text, txt, text_eq, false, [], ◌∷◌, done, ◌≡◌, ◌↔◌, refl}
use fastmcp.Json.{no_members, lookup}
use fastmcp.Auth.{AccessToken, empty_token, accepted, verify_static, require_scopes}
use fastmcp.Auth.Jwt.Config.{Crypto, JwtVerifier, new_jwt_verifier, with_hmac_secret}
use fastmcp.Auth.Jwt.Claims.{build_token, validate_claims}
use fastmcp.Auth.Jwt.{verify_jwt, verify_signature}
use fastmcp.Auth.Jwt.Sound.{verify_jwt-IsVerified, IsVerified}
use fastmcp.Auth.Bearer.{default_config, passed, bearer_middleware, bearer_token}
use fastmcp.Auth.Bearer.Passing.{bearer_middleware-passed_iff, Passes}
use fastmcp.Auth.Protect.{HttpRequest, AuthSettings, protect, protect_unauthorized}
use fastmcp.Tests.{demo_codec, demo_server, demo_world}
use fastmcp.Tests.Mounting.{demo_http}

abbrev ada : AccessToken
ada = record empty_token { token = txt "t1"; subject = txt "ada" }

-- an encoding that is the text itself, and one signature
abbrev toy_crypto : Crypto
toy_crypto = record {
  base64url = λ s. done s;
  header_json = λ s. done (record { alg = txt "HS256"; typ = []; kid = [] });
  claims_json = λ s. done no_members;
  hmac_sha256 = λ key message. txt "s";
  rsa_verify = λ key message sig. false;
  unix_seconds = λ bits. bits;
}

abbrev toy_verifier : JwtVerifier
toy_verifier = new_jwt_verifier (with_hmac_secret (txt "k") ∷ [])

verify_jwt-IsVerified_example :
    IsVerified toy_crypto toy_verifier 5
      (txt "h.p.s")
      (build_token toy_crypto toy_verifier (txt "h.p.s") no_members)
unfolding verify_jwt verify_signature validate_claims build_token lookup text_eq require_scopes
verify_jwt-IsVerified_example =
    verify_jwt-IsVerified toy_crypto toy_verifier 5 (txt "h.p.s")
      (build_token toy_crypto toy_verifier (txt "h.p.s") no_members) refl

bearer_middleware-passed_iff_example :
    (bearer_middleware
        (λ e. [])
        default_config
        (λ t. t.subject)
        (verify_static ((txt "t1", ada) ∷ []) 5)
        (txt "BEARER t1")
      ≡ passed (txt "ada"))
    ↔ ((token : Text) × (bearer_token (txt "BEARER t1") ≡ accepted token)
        × Passes
            (λ e. [])
            default_config
            (λ t. t.subject)
            (verify_static ((txt "t1", ada) ∷ []) 5 token)
            (txt "ada"))
bearer_middleware-passed_iff_example =
    bearer_middleware-passed_iff (λ e. []) default_config (λ t. t.subject)
      (verify_static ((txt "t1", ada) ∷ []) 5) (txt "BEARER t1") (txt "ada")

abbrev anonymous : HttpRequest
anonymous = record {
  method = txt "POST";
  path = txt "/";
  authorization = [];
  body = done (txt "{ping");
}

abbrev toy_settings : AuthSettings
toy_settings = record {
  resource = txt "https://a.b/";
  provider = record { issuer = txt "i"; audience = []; jwks_uri = []; authorization_servers = [] };
  scopes_supported = [];
  resource_name = [];
  resource_documentation = [];
}

protect_unauthorized_example :
    (protect demo_codec demo_http demo_server
      (λ e. [])
      (verify_static ((txt "t1", ada) ∷ []) 5)
      toy_settings
      []
      anonymous
      demo_world).1
    ≡ demo_world
unfolding bearer_token
protect_unauthorized_example =
    protect_unauthorized demo_codec demo_http demo_server (λ e. [])
      (verify_static ((txt "t1", ada) ∷ []) 5) toy_settings [] anonymous demo_world (λ h. cc (h.2))
