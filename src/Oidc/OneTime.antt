-- ===== src/Oidc/OneTime.antt =====
-- An authorization code is redeemed at most once.
use imposter_go.Common.{
  ℕ, ◌+◌, ◌≤◌, String, ◌≡◌, refl, Bool, false, not, ◌&&◌, Option, none, some, List, [], ◌∷◌, ◌==◌,
  if◌then◌else◌, eqb, is_some, arith, eq_iff, inl, inr, Option-cases,
}
use imposter_go.Common.Lists.{All}
use imposter_go.Common.Map.{lookup, lookup-erase, lookup-insert, lookup-drop_where}
use imposter_go.Oidc.{
  OidcServer, OidcConfig, OidcExternal, AuthCode, AuthSession, Values, HandlerRequest,
  HandlerResponse, Moment, Checked, refused, proceed, form_value,
}
use imposter_go.Oidc.Authorize.{
  new_code, log_in, handle_authorize, handle_authorize_get, handle_authorize_post,
}
use imposter_go.Oidc.Claims.{authenticate_user}
use imposter_go.Oidc.Logout.{hinted, clear_user_state, handle_logout, handle_logout_request}
use imposter_go.Oidc.Plugin.{
  TransformRequest, Endpoint, authorize, token, userinfo, logout, jwks, discovery, unknown,
  endpoint, answer, transform_response,
}
use imposter_go.Oidc.Userinfo.{handle_user_info, answer_userinfo}
use imposter_go.Oidc.Token.{
  TokenRequest, token_error, parse_form, parse_token_request, check_client_secret, check_pkce,
  check_user, check_grant, redeem, handle_token, validate_access_token,
}

-- 1 where the server holds the code, 0 where it does not.
abbrev pub held : String → OidcServer → ℕ
held k o = if is_some (lookup k o.codes) then 1 else 0

abbrev pub counted : Bool → ℕ
counted b = if b then 1 else 0

-- What a check on a code answers where it refuses.
abbrev pub IsError : {A : Type 0} → Checked A → Type 0
IsError (refused response) = response.status_code ≡ 400
IsError (proceed a) = Unit

module _ (ext : OidcExternal) where
  -- The code of a token request.
  abbrev pub requested_code : HandlerRequest → String
  requested_code r = elim (ext.parse_query r.body) [
    | none ↦ ""
    | some form ↦ form_value form "code"
  ]

  -- What the checks before the lookup of the code give: an error, or a request for this code.
  abbrev pub Parsed : HandlerRequest → Checked TokenRequest → Type 0
  Parsed r (refused response) = response.status_code ≡ 400
  Parsed r (proceed q) = q.code ≡ requested_code r

  pub parse_token_request-Parsed : (r : HandlerRequest) → Parsed r (parse_token_request ext r)
  unfolding parse_token_request parse_form token_error
  parse_token_request-Parsed r = ground arith

  pub check_grant-IsError :
      (config : OidcConfig) (q : TokenRequest) (c : AuthCode) → IsError (check_grant ext config q c)
  unfolding check_grant check_client_secret check_pkce check_user token_error
  check_grant-IsError config q c = ground arith

  redeem-held :
      (k : String) (o : OidcServer) (m : Moment) (q : TokenRequest) (found : Option AuthCode)
      → lookup q.code o.codes ≡ found
      → counted (eqb (redeem ext o m q found).1.status_code 200 && (q.code == k))
          + held k (redeem ext o m q found).0
        ≤ held k o
  unfolding redeem token_error
  redeem-held k o m q none e = ground arith
  redeem-held k o m q (some c) e =
      ground
        (arith, check_grant-IsError o.config q c, lookup-erase q.code k o.codes, eq_iff q.code k, e)

  handle_token-held :
      (k : String) (o : OidcServer) (m : Moment) (r : HandlerRequest)
      → counted (eqb (handle_token ext o m r).1.status_code 200 && (requested_code r == k))
          + held k (handle_token ext o m r).0
        ≤ held k o
  unfolding handle_token
  handle_token-held k o m r = token_held (parse_token_request ext r) (parse_token_request-Parsed r)
    where
      token_held :
          (parsed : Checked TokenRequest)
          → Parsed r parsed
          → counted (
                eqb
                  (elim parsed as (λ _. OidcServer × HandlerResponse) [
                    | refused response ↦ (o, response)
                    | proceed q ↦ redeem ext o m q (lookup q.code o.codes)
                  ]).1.status_code
                  200
                && (requested_code r == k))
              + held k
                  (elim parsed as (λ _. OidcServer × HandlerResponse) [
                    | refused response ↦ (o, response)
                    | proceed q ↦ redeem ext o m q (lookup q.code o.codes)
                  ]).0
            ≤ held k o
      token_held (refused response) e = ground arith
      token_held (proceed q) e = rw (← e) (redeem-held k o m q (lookup q.code o.codes) refl)

  log_in-held :
      (k : String) (o : OidcServer) (m : Moment) (id username password : String)
      (s : Option AuthSession)
      → (m.auth_code == k) ≡ false
      → held k (log_in ext o m id username password s).0 ≡ held k o
  unfolding log_in
  log_in-held k o m id username password none fresh = refl
  log_in-held k o m id username password (some s) fresh =
      elim (Option-cases (authenticate_user ext o.config username password)) [
        | inl nobody ↦ ground (arith, nobody)
        | inr (u, e) ↦ ground (arith, e, lookup-insert m.auth_code k (new_code m s u) o.codes)
      ]

  handle_authorize_post-held :
      (k : String) (o : OidcServer) (m : Moment) (r : HandlerRequest)
      → (m.auth_code == k) ≡ false
      → held k (handle_authorize_post ext o m r).0 ≡ held k o
  unfolding handle_authorize_post
  handle_authorize_post-held k o m r fresh = elim (Option-cases (ext.parse_query r.body)) [
    | inl malformed ↦ ground (arith, malformed)
    | inr (form, e) ↦ ground (
      arith,
      e,
      log_in-held k o m (form_value form "session_id") (form_value form "username")
          (form_value form "password") (lookup (form_value form "session_id") o.sessions) fresh,
    )
  ]

  handle_authorize-held :
      (k : String) (o : OidcServer) (m : Moment) (r : HandlerRequest)
      → (m.auth_code == k) ≡ false
      → held k (handle_authorize ext o m r).0 ≡ held k o
  unfolding handle_authorize handle_authorize_get
  handle_authorize-held k o m r fresh = ground (arith, handle_authorize_post-held k o m r fresh)

  clear_user_state-held :
      (k : String) (o : OidcServer) (id : String) → held k (clear_user_state o id) ≤ held k o
  unfolding clear_user_state
  clear_user_state-held k o id = ground (arith, lookup-drop_where (λ c. c.user_id == id) k o.codes)

  handle_logout_request-held :
      (k : String) (o : OidcServer) (params : Values)
      → held k (handle_logout_request ext o params).0 ≤ held k o
  unfolding handle_logout_request
  handle_logout_request-held k o params =
      ground (arith, clear_user_state-held k o (hinted ext o params).1)

  handle_logout-held :
      (k : String) (o : OidcServer) (r : HandlerRequest)
      → held k (handle_logout ext o r).0 ≤ held k o
  unfolding handle_logout
  handle_logout-held k o r = elim (Option-cases (ext.parse_query r.body)) [
    | inl malformed ↦ ground (arith, malformed, handle_logout_request-held k o r.query)
    | inr (form, e) ↦
        ground
          (arith, e, handle_logout_request-held k o r.query, handle_logout_request-held k o form)
  ]

  handle_user_info-held :
      (k : String) (o : OidcServer) (m : Moment) (r : HandlerRequest)
      → held k (handle_user_info ext o m r).0 ≡ held k o
  unfolding handle_user_info answer_userinfo validate_access_token
  handle_user_info-held k o m r = ground arith

  -- Whether a request is answered with a token for the code.
  abbrev pub redeems : String → OidcServer → TransformRequest → HandlerResponse → Bool
  redeems k o t response =
      elim (endpoint o.path_prefix t.request.path) [ token ↦ not t.handled | _ ↦ false ]
      && eqb response.status_code 200
      && (requested_code t.request == k)

  answer-held :
      (k : String) (e : Endpoint) (o : OidcServer) (m : Moment) (t : TransformRequest)
      → endpoint o.path_prefix t.request.path ≡ e
      → t.handled ≡ false
      → (m.auth_code == k) ≡ false
      → counted (redeems k o t (answer ext e o m t.request).1)
          + held k (answer ext e o m t.request).0
        ≤ held k o
  unfolding answer
  answer-held k authorize o m t e piped fresh =
      ground (arith, e, handle_authorize-held k o m t.request fresh)
  answer-held k token o m t e piped fresh = ground (arith, e, handle_token-held k o m t.request)
  answer-held k userinfo o m t e piped fresh =
      ground (arith, e, handle_user_info-held k o m t.request)
  answer-held k logout o m t e piped fresh = ground (arith, e, handle_logout-held k o t.request)
  answer-held k jwks o m t e piped fresh = ground (arith, e)
  answer-held k discovery o m t e piped fresh = ground (arith, e)
  answer-held k unknown o m t e piped fresh = ground (arith, e)

  transform_response-held :
      (k : String) (o : OidcServer) (m : Moment) (t : TransformRequest)
      → (m.auth_code == k) ≡ false
      → counted (redeems k o t (transform_response ext o m t).1)
          + held k (transform_response ext o m t).0
        ≤ held k o
  unfolding transform_response
  transform_response-held k o m t fresh =
      ground (arith, answer-held k (endpoint o.path_prefix t.request.path) o m t refl)

  -- The answers with a token for the code in a sequence of requests, each handled as a whole.
  unfoldable pub redemptions : String → OidcServer → List (Moment × TransformRequest) → ℕ
  redemptions k o [] = 0
  redemptions k o ((m, t) ∷ more) =
      let (o', response) = transform_response ext o m t in
      counted (redeems k o t response) + redemptions k o' more

  redemptions-held :
      (k : String) (o : OidcServer) (calls : List (Moment × TransformRequest))
      → All (λ c. (c.0.auth_code == k) ≡ false) calls
      → redemptions k o calls ≤ held k o
  unfolding redemptions
  redemptions-held k o [] fresh = ground arith
  redemptions-held k o ((m, t) ∷ more) (fresh, rest) = ground (
    arith,
    transform_response-held k o m t fresh,
    redemptions-held k (transform_response ext o m t).0 more rest,
  )

  -- Whatever the requests are that come one after the other, and whatever the server has stored: a
  -- code that is not generated anew is redeemed at most once.
  pub redemptions-le-one :
      (k : String) (o : OidcServer) (calls : List (Moment × TransformRequest))
      → All (λ c. (c.0.auth_code == k) ≡ false) calls
      → redemptions k o calls ≤ 1
  redemptions-le-one k o calls fresh = ground (arith, redemptions-held k o calls fresh)
