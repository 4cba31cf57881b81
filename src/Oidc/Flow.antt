-- ===== src/Oidc/Flow.antt =====
-- The authorization code flow from the login to the use of the token.
use imposter_go.Common.{
  ◌+◌, ◌*◌, ◌≤◌, String, ◌≡◌, refl, ◌∙◌, ap, true, false, ◌||◌, none, some, [], ◌∷◌, ◌==◌, arith,
  eq_iff, eq_refl,
}
use imposter_go.Common.Map.{lookup, lookup-insert}
use imposter_go.Common.Text.{split}
use imposter_go.Oidc.{
  OidcServer, OidcConfig, OidcExternal, AuthSession, AuthCode, AccessToken, User, Client,
  HandlerRequest, HandlerResponse, Moment, proceed, after, ten_minutes, second,
}
use imposter_go.Oidc.Authorize.{new_code, log_in}
use imposter_go.Oidc.Claims.{authenticate_user}
use imposter_go.Oidc.Pkce.{validate_pkce}
use imposter_go.Oidc.Admission.{get_user-authenticate_user}
use imposter_go.Oidc.Settings.{get_client, get_user}
use imposter_go.Oidc.Token.{
  TokenRequest, parse_token_request, check_client_secret, check_pkce, check_user, check_grant,
  generate_id_token, token_response, send_token, token_body, contains_scope, redeem, new_token,
  handle_token, valid, validate_access_token, expires_in,
}

validate_access_token-valid :
    (o : OidcServer) (m : Moment) (token : String) (t : AccessToken)
    → lookup token o.tokens ≡ some t
    → after m.now t.expires_at ≡ false
    → (validate_access_token o m token).1 ≡ valid t
unfolding validate_access_token
validate_access_token-valid o m token t found fresh = ground (arith, found, fresh)

-- The answer with a token.
abbrev pub answer_with : String → HandlerResponse
answer_with body = record {
  status_code = 200;
  headers =
      ("Content-Type", "application/json")
      ∷ ("Cache-Control", "no-store")
      ∷ ("Pragma", "no-cache")
      ∷ [];
  body = body;
}

module _ (ext : OidcExternal) where
  -- The checks pass for a client that has what the code asks for.
  check_grant-proceed :
      (config : OidcConfig) (q : TokenRequest) (c : AuthCode) (client : Client) (u : User)
      → get_client config q.client_id ≡ some client
      → (client.client_secret == "" || client.client_secret == q.client_secret) ≡ true
      → c.client_id ≡ q.client_id
      → c.redirect_uri ≡ q.redirect_uri
      → validate_pkce ext c.code_challenge c.challenge_method q.code_verifier ≡ none
      → get_user config c.user_id ≡ some u
      → check_grant ext config q c ≡ proceed u
  unfolding check_grant check_client_secret check_pkce check_user
  check_grant-proceed config q c client u registered secret owned redirects proved known =
      ground (arith, eq_iff c.client_id q.client_id, eq_iff c.redirect_uri q.redirect_uri)

  -- What a login leaves: the code, and the way back to the client.
  log_in-code :
      (o : OidcServer) (m : Moment) (id username password : String) (s : AuthSession) (u : User)
      → after m.now s.expires_at ≡ false
      → authenticate_user ext o.config username password ≡ some u
      → (lookup m.auth_code (log_in ext o m id username password (some s)).0.codes
          ≡ some (new_code m s u))
        × ((log_in ext o m id username password (some s)).0.config ≡ o.config)
  unfolding log_in
  log_in-code o m id username password s u fresh known = (
    ground (
      arith,
      fresh,
      known,
      lookup-insert m.auth_code m.auth_code (new_code m s u) o.codes,
      eq_refl m.auth_code,
    ),
    ground (arith, fresh, known),
  )

  redeem-token :
      (o : OidcServer) (m : Moment) (q : TokenRequest) (c : AuthCode) (u : User)
      → after m.now c.expires_at ≡ false
      → check_grant ext o.config q c ≡ proceed u
      → lookup m.access_token (redeem ext o m q (some c)).0.tokens ≡ some (new_token m q c)
  unfolding redeem
  redeem-token o m q c u fresh granted = ground (
    arith,
    fresh,
    granted,
    lookup-insert m.access_token m.access_token (new_token m q c) o.tokens,
    eq_refl m.access_token,
  )

  -- The response for a code that is granted.
  redeem-response :
      (o : OidcServer) (m : Moment) (q : TokenRequest) (c : AuthCode) (u : User)
      (id_token body : String)
      → after m.now c.expires_at ≡ false
      → check_grant ext o.config q c ≡ proceed u
      → contains_scope (split c.scope b' ') "openid" ≡ true
      → generate_id_token ext o m u q.client_id c.nonce (split c.scope b' ') ≡ some id_token
      → token_body ext m c id_token ≡ some body
      → (redeem ext o m q (some c)).1 ≡ answer_with body
  unfolding redeem token_response send_token
  redeem-response o m q c u id_token body fresh granted scoped signed encoded =
      ground (arith, fresh, granted, scoped, signed, encoded)

  -- A user who logs in gets the client a token: where the session has not expired and the password is
  -- right, and the registered client asks with the new code within ten minutes, with its secret, the
  -- redirect URI and the proof key of the session, whose scope has openid, and the signing of the ID token
  -- and the encoding succeed, the answer is 200 with the encoded access token, ID token and scope; the
  -- token is stored for this user and the scope of the session, and it is valid for an hour.
  pub log_in-handle_token :
      (o : OidcServer) (login used later : Moment) (id username password : String)
      (r : HandlerRequest) (s : AuthSession) (u : User) (client : Client) (q : TokenRequest)
      (id_token body : String)
      → after login.now s.expires_at ≡ false
      → authenticate_user ext o.config username password ≡ some u
      → parse_token_request ext r ≡ proceed q
      → q.code ≡ login.auth_code
      → used.now ≤ login.now + ten_minutes
      → get_client o.config q.client_id ≡ some client
      → (client.client_secret == "" || client.client_secret == q.client_secret) ≡ true
      → s.client_id ≡ q.client_id
      → s.redirect_uri ≡ q.redirect_uri
      → validate_pkce ext s.code_challenge s.challenge_method q.code_verifier ≡ none
      → contains_scope (split s.scope b' ') "openid" ≡ true
      → generate_id_token ext
          (log_in ext o login id username password (some s)).0
          used
          u
          q.client_id
          s.nonce
          (split s.scope b' ')
        ≡ some id_token
      → ext.marshal_token (record {
        access_token = used.access_token;
        token_type = "Bearer";
        expires_in = expires_in;
        id_token = id_token;
        scope = s.scope;
      })
        ≡ some body
      → later.now ≤ used.now + expires_in * second
      → let logged_in = (log_in ext o login id username password (some s)).0 in
        let o' = (handle_token ext logged_in used r).0 in
        let t = new_token used q (new_code login s u) in
        ((handle_token ext logged_in used r).1 ≡ answer_with body)
        × (t.user_id ≡ u.username)
        × (t.scope ≡ s.scope)
        × ((validate_access_token o' later used.access_token).1 ≡ valid t)
  unfolding handle_token new_token new_code token_body
  log_in-handle_token o login used later id username password r s u client q id_token body fresh
        known parsed code in_time registered secret owned redirects proved scoped signed encoded
        soon =
      let logged_in = (log_in ext o login id username password (some s)).0 in
      let c = new_code login s u in
      let (found, config_kept) = log_in-code o login id username password s u fresh known in
      let granted : check_grant ext logged_in.config q c ≡ proceed u = rw config_kept (
        check_grant-proceed o.config q c client u registered secret owned redirects proved
          (get_user-authenticate_user ext o.config username password known)) in
      let answered : handle_token ext logged_in used r ≡ redeem ext logged_in used q (some c) =
        rw (parsed, handle_token)
          (ap (redeem ext logged_in used q) (ap (λ k. lookup k logged_in.codes) code ∙ found)) in
      let stored =
        ap (λ a. lookup used.access_token a.0.tokens) answered
        ∙ redeem-token logged_in used q c u (ground arith) granted in
      (
        ap (λ a. a.1) answered
            ∙ redeem-response logged_in used q c u id_token body (ground arith) granted scoped
                signed encoded,
        refl,
        refl,
        validate_access_token-valid (handle_token ext logged_in used r).0 later used.access_token
            (new_token used q c) stored (ground arith),
      )
