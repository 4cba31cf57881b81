-- ===== src/Oidc/Userinfo.antt =====
-- userinfo.go: the userinfo endpoint.
use imposter_go.Common.{
  ℕ, String, not, ◌||◌, none, some, [], ◌∷◌, ◌==◌, if◌then◌else◌, is_none, eqb,
}
use imposter_go.Common.Map.{Map, insert, lookup}
use imposter_go.Common.Text.{split, cut_prefix}
use imposter_go.Common.Text.Case.{equal_fold}
use imposter_go.Common.Value.{Value, string}
use imposter_go.Oidc.{
  User, OidcServer, OidcExternal, AccessToken, HandlerRequest, HandlerResponse, Moment, Checked,
  refused, proceed, ◌>>◌, require,
}
use imposter_go.Oidc.Claims.{get_user_claims}
use imposter_go.Oidc.Settings.{get_user}
use imposter_go.Oidc.Token.{
  Validated, valid, invalid, validate_access_token, authorization, no_store_headers,
}

-- The claims that are sent: with the sub claim, which getUserClaims has already set.
unfoldable pub userinfo_claims : User → AccessToken → Map Value
userinfo_claims u t =
    let claims = get_user_claims u (split t.scope b' ') in
    if is_none (lookup "sub" claims) then insert "sub" (string u.username) claims else claims

module _ (ext : OidcExternal) where
  -- userinfoError
  unfoldable pub userinfo_error : String → String → ℕ → HandlerResponse
  userinfo_error code description status = record {
    status_code = status;
    headers =
        ("Content-Type", "application/json")
        ∷ (if eqb status 401
            then ("WWW-Authenticate", "Bearer realm=\"oidc-server\"") ∷ []
            else []);
    body = ext.marshal_error code description;
  }

  -- The access token of the Authorization header.
  unfoldable pub bearer_token : HandlerRequest → Checked String
  bearer_token r = do
    require (equal_fold r.method "GET" || equal_fold r.method "POST")
        (userinfo_error "invalid_request" "Only GET and POST methods are allowed" 405)
    require (not (authorization r == ""))
        (userinfo_error "invalid_token" "Authorization header is required" 401)
    elim (cut_prefix (authorization r) "Bearer ") [
      | none ↦ refused (userinfo_error "invalid_token" "Invalid authorization header format" 401)
      | some token ↦
          require (not (token == ""))
            (userinfo_error "invalid_token" "Access token is required" 401)
          >> proceed token
    ]

  -- The answer of handleUserInfo to a valid token.
  unfoldable pub send_userinfo : OidcServer → AccessToken → HandlerResponse
  send_userinfo o t = elim (get_user o.config t.user_id) [
    | none ↦ userinfo_error "server_error" "User not found" 500
    | some u ↦ elim (ext.marshal_claims (userinfo_claims u t)) [
      | none ↦ userinfo_error "server_error" "Failed to encode response" 500
      | some body ↦ record { status_code = 200; headers = no_store_headers; body = body }
    ]
  ]

  unfoldable pub answer_userinfo : OidcServer × Validated → OidcServer × HandlerResponse
  answer_userinfo (o, invalid message) = (o, userinfo_error "invalid_token" message 401)
  answer_userinfo (o, valid t) = (o, send_userinfo o t)

  -- handleUserInfo
  unfoldable pub handle_user_info :
      OidcServer → Moment → HandlerRequest → OidcServer × HandlerResponse
  handle_user_info o m r = elim (bearer_token r) [
    | refused response ↦ (o, response)
    | proceed token ↦ answer_userinfo (validate_access_token o m token)
  ]
