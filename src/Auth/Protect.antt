-- ===== src/Auth/Protect.antt =====
-- auth/metadata.go: the metadata document of a protected server, and Protect. The multiplexer sends the
-- well-known path to the document and every other path to the server; paths are taken to be clean.
use mathlib.Core.List.{reverse}
use fastmcp.Prelude.{
  ℕ, Text, txt, text_eq, is_empty, true, false, not, ◌&&◌, ◌++◌, List, [], ◌∷◌, some, Outcome, ok,
  err, panic, Result, Exec, All, Bool-cases, inl, inr, ◌≡◌, refl, if◌then◌else◌, ◌==◌,
}
use fastmcp.Session.{World}
use fastmcp.Server.{Server}
use fastmcp.Server.Codec.{Codec}
use fastmcp.Http.{HttpCodec, HttpAnswer, http_handler}
use fastmcp.Auth.{AuthError, AccessToken, Verified, accepted, has_scope}
use fastmcp.Auth.Bearer.{
  BearerConfig, default_config, with_resource_metadata_url, Guarded, challenged, passed,
  bearer_token, bearer_middleware,
}
use fastmcp.Auth.Bearer.Passing.{bearer_middleware-passed_iff}

abbrev pub well_known_path : Text
well_known_path = txt "/.well-known/oauth-protected-resource"

pub record OauthProvider : Type 0 where
  pub issuer : Text
  pub audience : Text
  pub jwks_uri : Text
  pub authorization_servers : List Text

pub record AuthSettings : Type 0 where
  pub resource : Text
  pub provider : OauthProvider
  pub scopes_supported : List Text
  pub resource_name : Text
  pub resource_documentation : Text

pub record ResourceMetadata : Type 0 where
  pub resource : Text
  pub authorization_servers : List Text
  pub jwks_uri : Text
  pub scopes_supported : List Text
  pub bearer_methods_supported : List Text
  pub resource_name : Text
  pub resource_documentation : Text

-- AuthSettings.Metadata
unfoldable pub metadata : AuthSettings → ResourceMetadata
metadata s = record {
  resource = s.resource;
  authorization_servers =
      if is_empty s.provider.authorization_servers && not (is_empty s.provider.issuer)
      then s.provider.issuer ∷ []
      else s.provider.authorization_servers;
  jwks_uri = s.provider.jwks_uri;
  scopes_supported = s.scopes_supported;
  bearer_methods_supported = txt "header" ∷ [];
  resource_name = s.resource_name;
  resource_documentation = s.resource_documentation;
}

abbrev pub drop_slashes : Text → Text
drop_slashes [] = []
drop_slashes (c ∷ s) = elim (c == b'/') [ true ↦ drop_slashes s | false ↦ c ∷ s ]

-- AuthSettings.MetadataURL
unfoldable pub metadata_url : AuthSettings → Text
metadata_url s =
    if is_empty s.resource
    then []
    else reverse (drop_slashes (reverse s.resource)) ++ well_known_path

pub data ProtectedAnswer : Type 0 where
  document : ResourceMetadata → ProtectedAnswer
  -- the answer to HEAD
  head_only : ProtectedAnswer
  -- 405
  get_or_head_only : ProtectedAnswer
  -- status, WWW-Authenticate, and the members of the body
  unauthorized : ℕ → Text → Text → Text → ProtectedAnswer
  served : HttpAnswer → ProtectedAnswer

-- MetadataHandler
unfoldable pub metadata_handler : ResourceMetadata → Text → ProtectedAnswer
metadata_handler meta method =
    if text_eq method (txt "HEAD")
    then head_only
    else if text_eq method (txt "GET")
    then document meta
    else get_or_head_only

pub record HttpRequest : Type 0 where
  pub method : Text
  pub path : Text
  pub authorization : Text
  pub body : Result Text

-- the options of the middleware, the URL of the document first
abbrev pub apply_all : List (BearerConfig → BearerConfig) → BearerConfig → BearerConfig
apply_all [] cfg = cfg
apply_all (opt ∷ opts) cfg = apply_all opts (opt cfg)

unfoldable pub merged_config : AuthSettings → List (BearerConfig → BearerConfig) → BearerConfig
unfolding metadata_url
merged_config settings opts =
    if is_empty (metadata_url settings)
    then apply_all opts default_config
    else apply_all opts (with_resource_metadata_url (metadata_url settings) default_config)

module _ {W : Type 0} (lib : Codec) (json : HttpCodec) (s : Server W) where
  abbrev pub served_by : Outcome ⊥ HttpAnswer × World W → Outcome ⊥ ProtectedAnswer × World W
  served_by (ok a, w) = (ok (served a), w)
  served_by (err e, w) = (err e, w)
  served_by (panic m, w) = (panic m, w)

  abbrev pub run_guarded : Guarded (Exec (World W) ⊥ HttpAnswer) → Exec (World W) ⊥ ProtectedAnswer
  run_guarded (challenged status header code desc) w =
      (ok (unauthorized status header code desc), w)
  run_guarded (passed act) w = served_by (act w)

  module _ (error_text : AuthError → Text) (verify : Text → Verified AccessToken)
      (settings : AuthSettings) (opts : List (BearerConfig → BearerConfig)) where
    -- Protect
    unfoldable pub protect : HttpRequest → Exec (World W) ⊥ ProtectedAnswer
    unfolding metadata metadata_handler bearer_middleware http_handler merged_config
    protect r w =
        if text_eq r.path well_known_path
        then (ok (metadata_handler (metadata settings) r.method), w)
        else run_guarded
            (bearer_middleware error_text (merged_config settings opts)
              (λ tok. http_handler lib json s r.method r.body) verify r.authorization)
            w

    -- a token in the header which the verifier accepts and which has the scopes asked for
    abbrev pub IsAuthorized : HttpRequest → Type 0
    IsAuthorized r =
        (token : Text) × (tok : AccessToken) × (bearer_token r.authorization ≡ accepted token)
        × (verify token ≡ accepted tok)
        × All (λ scope. has_scope (some tok) scope ≡ true)
            (merged_config settings opts).required_scopes

    abbrev handled : HttpRequest → AccessToken → Exec (World W) ⊥ HttpAnswer
    handled r tok = http_handler lib json s r.method r.body

    authorized :
        (r : HttpRequest) (act : Exec (World W) ⊥ HttpAnswer)
        → bearer_middleware error_text
            (merged_config settings opts)
            (handled r)
            verify
            r.authorization
          ≡ passed act
        → IsAuthorized r
    authorized r act same =
        let h =
          (bearer_middleware-passed_iff error_text (merged_config settings opts) (handled r) verify
              r.authorization act).0
            same in
        let (tok, ver, scopes, answer) = h.2 in (h.0, tok, h.1, ver, scopes)

    guarded_or_authorized :
        (r : HttpRequest) (w : World W) (g : Guarded (Exec (World W) ⊥ HttpAnswer))
        → ((act : Exec (World W) ⊥ HttpAnswer) → g ≡ passed act → IsAuthorized r)
        → ¬ IsAuthorized r
        → (run_guarded g w).1 ≡ w
    guarded_or_authorized r w (challenged status header code desc) passes denied = refl
    guarded_or_authorized r w (passed act) passes denied = absurd (denied (passes act refl))

    -- A request that is not authorized changes nothing of the server's world, whatever its path, method
    -- and body.
    pub protect_unauthorized :
        (r : HttpRequest) (w : World W) → ¬ IsAuthorized r → (protect r w).1 ≡ w
    unfolding protect
    protect_unauthorized r w denied = elim (Bool-cases (text_eq r.path well_known_path)) [
      | inl e ↦ rw e refl
      | inr e ↦ rw e (
          guarded_or_authorized r w
            (bearer_middleware error_text (merged_config settings opts) (handled r) verify
              r.authorization)
            (λ act same. authorized r act same) denied)
    ]
