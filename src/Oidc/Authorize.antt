-- ===== src/Oidc/Authorize.antt =====
-- auth.go: the authorization endpoint, with its login form.
use imposter_go.Common.{
  ℕ, ◌+◌, String, not, ◌&&◌, Option, none, some, List, [], ◌∷◌, ◌++◌, ◌==◌, if◌then◌else◌,
}
use imposter_go.Common.Lists.{is_empty}
use imposter_go.Common.Map.{insert, erase, lookup}
use imposter_go.Common.Text.{contains, trim_right}
use imposter_go.Common.Text.Case.{to_upper}
use imposter_go.Oidc.{
  User, Client, OidcConfig, OidcServer, OidcExternal, AuthSession, AuthCode, HandlerRequest,
  HandlerResponse, Moment, Checked, refused, proceed, ◌>>=◌, ◌>>◌, require, form_value, after,
  ten_minutes,
}
use imposter_go.Oidc.Claims.{authenticate_user}
use imposter_go.Oidc.Pkce.{validate_code_challenge}
use imposter_go.Oidc.Settings.{get_client, is_valid_redirect_uri}

abbrev pub method_not_allowed : HandlerResponse
method_not_allowed = record { status_code = 405; headers = []; body = "Method Not Allowed" }

abbrev internal_error : HandlerResponse
internal_error = record { status_code = 500; headers = []; body = "Internal Server Error" }

-- A page, where its template could be executed.
unfoldable pub render_page : ℕ → Option String → HandlerResponse
render_page status none = internal_error
render_page status (some page) = record {
  status_code = status;
  headers = ("Content-Type", "text/html; charset=utf-8") ∷ [];
  body = page;
}

unfoldable pub new_session : Moment → HandlerRequest → AuthSession
new_session m r = record {
  id = m.session_id;
  client_id = form_value r.query "client_id";
  redirect_uri = form_value r.query "redirect_uri";
  scope = form_value r.query "scope";
  state = form_value r.query "state";
  nonce = form_value r.query "nonce";
  code_challenge = form_value r.query "code_challenge";
  challenge_method = form_value r.query "code_challenge_method";
  created_at = m.now;
  expires_at = m.now + ten_minutes;
}

unfoldable pub new_code : Moment → AuthSession → User → AuthCode
new_code m s u = record {
  code = m.auth_code;
  client_id = s.client_id;
  redirect_uri = s.redirect_uri;
  user_id = u.username;
  scope = s.scope;
  nonce = s.nonce;
  code_challenge = s.code_challenge;
  challenge_method = s.challenge_method;
  created_at = m.now;
  expires_at = m.now + ten_minutes;
}

-- The values with the state that the client has sent, if any.
abbrev with_state : List (String × String) → String → List (String × String)
with_state values state = if state == "" then values else values ++ (("state", state) ∷ [])

module _ (ext : OidcExternal) where
  -- renderError
  unfoldable pub render_error : String → String → HandlerResponse
  render_error code description = render_page 400 (ext.error_page code description)

  -- shared.ServerBasePath
  unfoldable pub server_base_path : String → String
  server_base_path server_url = elim (ext.url_path server_url) [
    | none ↦ ""
    | some path ↦ trim_right path "/"
  ]

  -- renderLoginForm
  unfoldable pub render_login_form : OidcServer → String → String → String → HandlerResponse
  render_login_form o session_id client_id error = render_page 200 (
      ext.login_page (record {
        session_id = session_id;
        client_id = client_id;
        server_base = server_base_path o.server_url;
        path_prefix = o.path_prefix;
        error = error;
      }))

  unfoldable pub redirect_to : Option String → HandlerResponse
  redirect_to none = render_error "server_error" "Invalid redirect URI"
  redirect_to (some location) = record {
    status_code = 302;
    headers = ("Location", location) ∷ [];
    body = "";
  }

  -- redirectError
  unfoldable pub redirect_error : String → String → String → String → HandlerResponse
  redirect_error redirect_uri code description state = redirect_to (
      ext.with_values redirect_uri
        (with_state (("error", code) ∷ ("error_description", description) ∷ []) state))

  -- The checks of handleAuthorizeGet, in their order, up to the client.
  unfoldable pub check_authorize : OidcConfig → HandlerRequest → Checked Client
  check_authorize config r =
      let client_id = form_value r.query "client_id" in
      let redirect_uri = form_value r.query "redirect_uri" in
      let scope = form_value r.query "scope" in
      let state = form_value r.query "state" in
      do
        require (not (is_empty r.query)) (render_error "invalid_request" "Missing query parameters")
        require (not (client_id == "")) (render_error "invalid_request" "client_id is required")
        require (not (redirect_uri == ""))
            (render_error "invalid_request" "redirect_uri is required")
        require (form_value r.query "response_type" == "code") (
            redirect_error redirect_uri "unsupported_response_type"
              "Only 'code' response type is supported" state)
        require (not (scope == "") && contains scope "openid")
            (redirect_error redirect_uri "invalid_scope" "openid scope is required" state)
        elim (get_client config client_id) [
          | none ↦ refused (redirect_error redirect_uri "invalid_client" "Unknown client" state)
          | some client ↦ proceed client
        ]

  -- The checks that follow, on the client.
  unfoldable pub check_client : HandlerRequest → Client → Checked Client
  check_client r client =
      let redirect_uri = form_value r.query "redirect_uri" in
      let challenge = form_value r.query "code_challenge" in
      let method = form_value r.query "code_challenge_method" in
      do
        require (is_valid_redirect_uri client redirect_uri)
            (render_error "invalid_request" "Invalid redirect_uri")
        elim (validate_code_challenge challenge method) [
          | none ↦ proceed client
          | some message ↦
              refused
                (redirect_error redirect_uri "invalid_request" message (form_value r.query "state"))
        ]

  -- handleAuthorizeGet
  unfoldable pub handle_authorize_get :
      OidcServer → Moment → HandlerRequest → OidcServer × HandlerResponse
  handle_authorize_get o m r = elim (check_authorize o.config r >>= check_client r) [
    | refused response ↦ (o, response)
    | proceed client ↦ (
      record o { sessions = insert m.session_id (new_session m r) o.sessions },
      render_login_form o m.session_id client.client_id "",
    )
  ]

  unfoldable pub redirect_with_code : Moment → AuthSession → HandlerResponse
  redirect_with_code m s =
      redirect_to (ext.with_values s.redirect_uri (with_state (("code", m.auth_code) ∷ []) s.state))

  -- handleAuthorizePost from the session on, as it is found in the map.
  unfoldable pub log_in :
      OidcServer
      → Moment
      → String
      → String
      → String
      → Option AuthSession
      → OidcServer × HandlerResponse
  log_in o m session_id username password none =
      (o, render_error "invalid_request" "Invalid or expired session")
  log_in o m session_id username password (some s) =
      if after m.now s.expires_at
      then (o, render_error "invalid_request" "Invalid or expired session")
      else elim (authenticate_user ext o.config username password) [
        | none ↦ (o, render_login_form o session_id s.client_id "Invalid username or password")
        | some u ↦ (
          record o {
            codes = insert m.auth_code (new_code m s u) o.codes;
            sessions = erase session_id o.sessions;
          },
          redirect_with_code m s,
        )
      ]

  -- handleAuthorizePost
  unfoldable pub handle_authorize_post :
      OidcServer → Moment → HandlerRequest → OidcServer × HandlerResponse
  handle_authorize_post o m r = elim (ext.parse_query r.body) [
    | none ↦ (o, render_error "invalid_request" "Invalid form data")
    | some form ↦
        let session_id = form_value form "session_id" in
        if session_id == ""
        then (o, render_error "invalid_request" "session_id is required")
        else log_in o m session_id (form_value form "username") (form_value form "password")
            (lookup session_id o.sessions)
  ]

  -- handleAuthorize
  unfoldable pub handle_authorize :
      OidcServer → Moment → HandlerRequest → OidcServer × HandlerResponse
  handle_authorize o m r =
      if to_upper r.method == "GET"
      then handle_authorize_get o m r
      else if to_upper r.method == "POST"
      then handle_authorize_post o m r
      else (o, method_not_allowed)
