-- ===== src/Oidc/Ending.antt =====
-- What a logout leaves, and where it sends a client to.
use mathlib.Core.Path.{subst}
use imposter_go.Common.{
  String, ◌≡◌, ◌≢◌, refl, Bool, true, false, not, Option, none, some, ◌==◌, arith, eq_iff, inl, inr,
  Bool-cases, Option-cases,
}
use imposter_go.Common.Map.{lookup}
use imposter_go.Common.Map.Each.{Each, Each-lookup, drop_where-Each, drop_where-kept}
use imposter_go.Common.Text.{concat, has_prefix}
use imposter_go.Common.Text.Laws.{has_prefix-concat}
use imposter_go.Oidc.{
  Checked-cases, OidcServer, OidcExternal, AuthCode, AccessToken, Client, HandlerResponse, Moment,
  Checked, refused, proceed, require, ◌>>◌, form_value, Values,
}
use imposter_go.Oidc.Authorize.{render_error, render_page}
use imposter_go.Oidc.Logout.{
  hinted, logout_client, check_logout, clear_user_state, end_session, handle_logout_request,
}
use imposter_go.Oidc.Plugin.{unknown, endpoint, skips}
use imposter_go.Oidc.Settings.{get_client, is_valid_post_logout_redirect_uri}
use imposter_go.Oidc.Token.{valid, validate_access_token}

-- After a user with a name that is not empty is logged out, no code and no token of this user is left,
-- and those of the other users are as they were.
clear_user_state-Each :
    (o : OidcServer) (id : String)
    → (id == "") ≡ false
    → Each (λ t. (t.user_id == id) ≡ false) (clear_user_state o id).tokens
      × Each (λ c. (c.user_id == id) ≡ false) (clear_user_state o id).codes
      × ((k : String) (t : AccessToken)
          → lookup k o.tokens ≡ some t
          → (t.user_id == id) ≡ false
          → lookup k (clear_user_state o id).tokens ≡ some t)
      × ((k : String) (c : AuthCode)
          → lookup k o.codes ≡ some c
          → (c.user_id == id) ≡ false
          → lookup k (clear_user_state o id).codes ≡ some c)
unfolding clear_user_state
clear_user_state-Each o id named =
    rw (named, clear_user_state)
      (
        drop_where-Each (λ t. t.user_id == id) o.tokens,
        drop_where-Each (λ c. c.user_id == id) o.codes,
        λ k t found other. drop_where-kept (λ t. t.user_id == id) k o.tokens t found other,
        λ k c found other. drop_where-kept (λ c. c.user_id == id) k o.codes c found other,
      )

-- A token that is valid once its server has logged a user out is not a token of this user.
validate_access_token-Each :
    (o : OidcServer) (m : Moment) (token id : String) (t : AccessToken)
    → Each (λ t. (t.user_id == id) ≡ false) o.tokens
    → (validate_access_token o m token).1 ≡ valid t
    → (t.user_id == id) ≡ false
unfolding validate_access_token
validate_access_token-Each o m token id t h e = elim (Option-cases (lookup token o.tokens)) [
  | inl missing ↦ absurd (ground arith)
  | inr (t', found) ↦
      let same : t' ≡ t = ground arith in
      subst (λ a. (a.user_id == id) ≡ false) same
        (Each-lookup (λ a. (a.user_id == id) ≡ false) token o.tokens h found)
]

module _ (ext : OidcExternal) where
  -- A client that is sent on after a logout is registered, and goes where it has registered to go.
  check_logout-client :
      (o : OidcServer) (params : Values)
      → (form_value params "post_logout_redirect_uri" == "") ≡ false
      → check_logout ext o params ≡ proceed tt
      → (client : Client) × (get_client o.config (logout_client ext o params) ≡ some client)
        × (is_valid_post_logout_redirect_uri client (form_value params "post_logout_redirect_uri")
            ≡ true)
  unfolding check_logout
  check_logout-client o params given e =
      elim (Option-cases (get_client o.config (logout_client ext o params))) [
        | inl nobody ↦ absurd (ground arith)
        | inr (client, found) ↦ (client, found, ground arith)
      ]

  abbrev NotSent : Checked (Unit {0}) → Type 0
  NotSent (refused response) = response.status_code ≢ 302
  NotSent (proceed _) = Unit

  render_page-status : (page : Option String) → (render_page 400 page).status_code ≢ 302
  unfolding render_page
  render_page-status none e = absurd (omega arith)
  render_page-status (some page) e = absurd (omega arith)

  render_error-status : (a b : String) → (render_error ext a b).status_code ≢ 302
  unfolding render_error
  render_error-status a b = render_page-status (ext.error_page a b)

  require-NotSent :
      (ok : Bool) (r : HandlerResponse) (next : Checked (Unit {0}))
      → r.status_code ≢ 302
      → NotSent next
      → NotSent (require ok r >> next)
  require-NotSent true r next page h = h
  require-NotSent false r next page h = page

  last-NotSent : (ok : Bool) (r : HandlerResponse) → r.status_code ≢ 302 → NotSent (require ok r)
  last-NotSent true r page = tt
  last-NotSent false r page = page

  check_logout-NotSent : (o : OidcServer) (params : Values) → NotSent (check_logout ext o params)
  unfolding check_logout
  check_logout-NotSent o params =
      elim (Bool-cases (form_value params "post_logout_redirect_uri" == "")) [
        | inl nowhere ↦ rw (nowhere, check_logout) tt
        | inr given ↦
            rw (given, check_logout)
              (require-NotSent (not (logout_client ext o params == "")) _ _
                (render_error-status _ _)
                (elim (Option-cases (get_client o.config (logout_client ext o params))) [
                  | inl nobody ↦ rw nobody (render_error-status _ _)
                  | inr (client, found) ↦ rw found (
                      last-NotSent
                        (is_valid_post_logout_redirect_uri client
                          (form_value params "post_logout_redirect_uri"))
                        _ (render_error-status _ _))
                ]))
      ]

  end_session-status :
      (params : Values)
      → (form_value params "post_logout_redirect_uri" == "") ≡ true
      → (end_session ext params).status_code ≢ 302
  unfolding end_session
  end_session-status params nowhere e = ground arith

  -- A logout that is answered with a redirect comes from a registered client and names one of its URIs
  -- for this, and the state of the user that its hint names has been cleared.
  handle_logout_request-redirect :
      (o : OidcServer) (params : Values)
      → (handle_logout_request ext o params).1.status_code ≡ 302
      → (client : Client) × (get_client o.config (logout_client ext o params) ≡ some client)
        × (is_valid_post_logout_redirect_uri client (form_value params "post_logout_redirect_uri")
            ≡ true)
        × ((handle_logout_request ext o params).0 ≡ clear_user_state o (hinted ext o params).1)
  unfolding handle_logout_request
  handle_logout_request-redirect o params sent = elim (Checked-cases (check_logout ext o params)) [
    | inl (response, e) ↦
        absurd (subst NotSent e (check_logout-NotSent o params) (ground (arith, e)))
    | inr (_, e) ↦ elim (Bool-cases (form_value params "post_logout_redirect_uri" == "")) [
      | inl nowhere ↦ absurd (end_session-status params nowhere (ground (arith, e)))
      | inr given ↦
          let (client, found, allowed) = check_logout-client o params given e in
          (client, found, allowed, ground (arith, e))
    ]
  ]

below_prefix :
    (o : OidcServer) (path part : String)
    → (path == concat o.path_prefix part) ≡ true
    → has_prefix part "/" ≡ true
    → skips o path ≡ false
unfolding skips
below_prefix o path part same slash =
    rw ((eq_iff path (concat o.path_prefix part)).0 same, skips)
      (rw (has_prefix-concat o.path_prefix part "/", slash) refl)

-- Every endpoint lies below the path prefix: no request for one of them is skipped.
endpoint-skips :
    (o : OidcServer) (path : String) → endpoint o.path_prefix path ≢ unknown → skips o path ≡ false
unfolding endpoint has_prefix
endpoint-skips o path known = ground (
  arith,
  below_prefix o path "/authorize",
  below_prefix o path "/token",
  below_prefix o path "/userinfo",
  below_prefix o path "/logout",
  below_prefix o path "/.well-known/jwks.json",
  below_prefix o path "/.well-known/openid-configuration",
)
