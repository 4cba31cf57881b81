-- ===== src/Oidc/Plugin.antt =====
-- plugin.go: the routing of requests, the cached documents and the removal of what has expired.
use imposter_go.Common.{ℕ, String, Bool, not, [], ◌∷◌, ◌==◌, if◌then◌else◌}
use imposter_go.Common.Map.{drop_where}
use imposter_go.Common.Text.{concat, has_prefix}
use imposter_go.Common.Text.Case.{equal_fold}
use imposter_go.Oidc.{OidcServer, OidcExternal, HandlerRequest, HandlerResponse, Moment, after}
use imposter_go.Oidc.Authorize.{handle_authorize, method_not_allowed}
use imposter_go.Oidc.Logout.{handle_logout}
use imposter_go.Oidc.Token.{handle_token}
use imposter_go.Oidc.Userinfo.{handle_user_info}

-- TransformRequest: the request, and what the pipeline has made of it.
pub record TransformRequest : Type 0 where
  pub request : HandlerRequest
  pub handled : Bool
  pub piped : HandlerResponse

abbrev json_response : String → HandlerResponse
json_response body = record {
  status_code = 200;
  headers = ("Content-Type", "application/json") ∷ [];
  body = body;
}

-- handleDiscovery
unfoldable pub handle_discovery : OidcServer → HandlerRequest → HandlerResponse
handle_discovery o r =
    if not (equal_fold r.method "GET") then method_not_allowed else json_response o.cached_discovery

-- handleJWKS
unfoldable pub handle_jwks : OidcServer → HandlerRequest → HandlerResponse
handle_jwks o r =
    if not (equal_fold r.method "GET")
    then method_not_allowed
    else if not (o.jwt.algorithm == "RS256")
    then json_response "{\"keys\": []}"
    else json_response o.cached_jwks

-- The cases of the switch on the path.
pub data Endpoint : Type 0 where
  authorize token userinfo logout jwks discovery unknown : Endpoint

unfoldable pub endpoint : String → String → Endpoint
endpoint prefix path =
    if path == concat prefix "/authorize"
    then authorize
    else if path == concat prefix "/token"
    then token
    else if path == concat prefix "/userinfo"
    then userinfo
    else if path == concat prefix "/logout"
    then logout
    else if path == concat prefix "/.well-known/jwks.json"
    then jwks
    else if path == concat prefix "/.well-known/openid-configuration"
    then discovery
    else unknown

abbrev not_found : HandlerResponse
not_found = record { status_code = 404; headers = []; body = "Not Found" }

-- NormaliseRequest: whether the request is skipped.
unfoldable pub skips : OidcServer → String → Bool
skips o path = not (has_prefix path (concat o.path_prefix "/"))

-- cleanupExpired
unfoldable pub cleanup_expired : OidcServer → ℕ → OidcServer
cleanup_expired o now = record o {
  sessions = drop_where (λ s. after now s.expires_at) o.sessions;
  codes = drop_where (λ c. after now c.expires_at) o.codes;
  tokens = drop_where (λ t. after now t.expires_at) o.tokens;
}

module _ (ext : OidcExternal) where
  unfoldable pub answer :
      Endpoint → OidcServer → Moment → HandlerRequest → OidcServer × HandlerResponse
  answer authorize o m r = handle_authorize ext o m r
  answer token o m r = handle_token ext o m r
  answer userinfo o m r = handle_user_info ext o m r
  answer logout o m r = handle_logout ext o r
  answer jwks o m r = (o, handle_jwks o r)
  answer discovery o m r = (o, handle_discovery o r)
  answer unknown o m r = (o, not_found)

  -- TransformResponse
  unfoldable pub transform_response :
      OidcServer → Moment → TransformRequest → OidcServer × HandlerResponse
  transform_response o m t =
      if t.handled
      then (o, t.piped)
      else answer (endpoint o.path_prefix t.request.path) o m t.request
