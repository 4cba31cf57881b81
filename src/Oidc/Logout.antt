-- ===== src/Oidc/Logout.antt =====
-- logout.go: the end of a session.
use imposter_go.Common.{String, not, Option, none, some, [], ◌∷◌, ◌==◌, if◌then◌else◌}
use imposter_go.Common.Map.{Map, lookup, drop_where}
use imposter_go.Common.Text.{concat}
use imposter_go.Common.Text.Case.{to_upper}
use imposter_go.Common.Value.{Value, string}
use imposter_go.Oidc.{
  OidcServer, OidcExternal, HandlerRequest, HandlerResponse, Values, Checked, refused, proceed,
  ◌>>◌, require, form_value,
}
use imposter_go.Oidc.Authorize.{render_error, method_not_allowed}
use imposter_go.Oidc.Settings.{get_client, is_valid_post_logout_redirect_uri}

-- claims[name].(string), or the empty text.
unfoldable pub text_claim : Map Value → String → String
text_claim claims name = elim (lookup name claims) [ some (string s) ↦ s | _ ↦ "" ]

-- clearUserState
unfoldable pub clear_user_state : OidcServer → String → OidcServer
clear_user_state o user_id = if user_id == "" then o else record o {
  tokens = drop_where (λ t. t.user_id == user_id) o.tokens;
  codes = drop_where (λ c. c.user_id == user_id) o.codes;
}

-- What a page that must not be stored answers.
abbrev logout_page_response : Option String → HandlerResponse
logout_page_response none = record {
  status_code = 500;
  headers = [];
  body = "Internal Server Error";
}
logout_page_response (some page) = record {
  status_code = 200;
  headers = ("Content-Type", "text/html; charset=utf-8") ∷ ("Cache-Control", "no-store") ∷ [];
  body = page;
}

module _ (ext : OidcExternal) where
  -- The claims of a token whose signature is right, whether it has expired or not.
  unfoldable pub verified_claims : OidcServer → String → Option (Map Value)
  verified_claims o token =
      if o.jwt.algorithm == "HS256"
      then ext.verify_hs256 o.jwt.secret token
      else ext.verify_rs256 o.jwt token

  -- parseIDTokenHint: the client and the user; both are empty where there is an error.
  unfoldable pub parse_id_token_hint : OidcServer → String → String × String
  parse_id_token_hint o token = elim (verified_claims o token) [
    | none ↦ ("", "")
    | some claims ↦
        if text_claim claims "iss" == concat o.server_url o.path_prefix
        then (text_claim claims "aud", text_claim claims "sub")
        else ("", "")
  ]

  unfoldable pub hinted : OidcServer → Values → String × String
  hinted o params =
      let hint = form_value params "id_token_hint" in
      if hint == "" then ("", "") else parse_id_token_hint o hint

  -- The client that asks: the parameter goes before the hint.
  unfoldable pub logout_client : OidcServer → Values → String
  logout_client o params =
      let client_id = form_value params "client_id" in
      if client_id == "" then (hinted o params).0 else client_id

  -- The checks on post_logout_redirect_uri.
  unfoldable pub check_logout : OidcServer → Values → Checked (Unit {0})
  check_logout o params =
      let uri = form_value params "post_logout_redirect_uri" in
      if uri == "" then proceed tt else (do
        require (not (logout_client o params == "")) (
            render_error ext "invalid_request"
              "client_id or id_token_hint is required when post_logout_redirect_uri is provided")
        elim (get_client o.config (logout_client o params)) [
          | none ↦ refused (render_error ext "invalid_request" "Unknown client")
          | some client ↦
              require (is_valid_post_logout_redirect_uri client uri)
                (render_error ext "invalid_request" "Invalid post_logout_redirect_uri")
        ])

  -- redirectAfterLogout
  unfoldable pub redirect_after_logout : String → String → HandlerResponse
  redirect_after_logout uri state =
      elim (ext.with_values uri (if state == "" then [] else ("state", state) ∷ [])) [
        | none ↦ render_error ext "server_error" "Invalid post_logout_redirect_uri"
        | some location ↦ record {
          status_code = 302;
          headers = ("Location", location) ∷ ("Cache-Control", "no-store") ∷ [];
          body = "";
        }
      ]

  unfoldable pub end_session : Values → HandlerResponse
  end_session params =
      let uri = form_value params "post_logout_redirect_uri" in
      if uri == ""
      then logout_page_response ext.logout_page
      else redirect_after_logout uri (form_value params "state")

  -- handleLogoutRequest
  unfoldable pub handle_logout_request : OidcServer → Values → OidcServer × HandlerResponse
  handle_logout_request o params = elim (check_logout o params) [
    | refused response ↦ (o, response)
    | proceed _ ↦ (clear_user_state o (hinted o params).1, end_session params)
  ]

  -- handleLogout
  unfoldable pub handle_logout : OidcServer → HandlerRequest → OidcServer × HandlerResponse
  handle_logout o r =
      if to_upper r.method == "GET"
      then handle_logout_request o r.query
      else if to_upper r.method == "POST"
      then elim (ext.parse_query r.body) [
        | none ↦ (o, render_error ext "invalid_request" "Invalid form data")
        | some form ↦ handle_logout_request o form
      ]
      else (o, method_not_allowed)
