-- ===== src/Oidc/Admission.antt =====
-- What the authorization endpoint stores rests on registered clients and known users.
use imposter_go.Common.{
  String, ◌≡◌, refl, ◌∙◌, ap, true, Option, none, some, List, [], ◌∷◌, ◌==◌, arith, eq_iff, inl,
  inr, Bool-cases, Option-cases,
}
use imposter_go.Common.Map.{lookup, insert, erase}
use imposter_go.Common.Map.Each.{Each, Each-insert, Each-erase, Each-lookup}
use imposter_go.Common.Text.{contains}
use imposter_go.Common.Text.Case.{to_upper}
use imposter_go.Oidc.{
  OidcServer, OidcConfig, OidcExternal, AuthSession, AuthCode, AccessToken, User, Client,
  HandlerRequest, HandlerResponse, Moment, Checked, refused, proceed, ◌>>=◌, form_value, after,
}
use imposter_go.Oidc.Authorize.{
  render_login_form, redirect_with_code, check_authorize, check_client, new_session, new_code,
  log_in, handle_authorize, handle_authorize_get, handle_authorize_post,
}
use imposter_go.Oidc.Claims.{authenticate_user}
use imposter_go.Oidc.Pkce.{validate_code_challenge}
use imposter_go.Oidc.Settings.{get_client, get_user, user_of, is_valid_redirect_uri}

-- A registered client, one of its redirect URIs, a scope with openid and a challenge in the right form.
pub record IsAllowed (config : OidcConfig) (client_id redirect_uri scope challenge method : String)
    : Type 0 where
  pub client : Client
  pub registered : get_client config client_id ≡ some client
  pub redirects : is_valid_redirect_uri client redirect_uri ≡ true
  pub scoped : contains scope "openid" ≡ true
  pub challenged : validate_code_challenge challenge method ≡ none

abbrev pub IsKnown : OidcConfig → String → Type 0
IsKnown config user_id = (u : User) × (get_user config user_id ≡ some u)

abbrev pub SessionIsAllowed : OidcConfig → AuthSession → Type 0
SessionIsAllowed config s =
    IsAllowed config s.client_id s.redirect_uri s.scope s.code_challenge s.challenge_method

abbrev pub CodeIsAllowed : OidcConfig → AuthCode → Type 0
CodeIsAllowed config c =
    IsAllowed config c.client_id c.redirect_uri c.scope c.code_challenge c.challenge_method
    × IsKnown config c.user_id

abbrev pub TokenIsAllowed : OidcConfig → AccessToken → Type 0
TokenIsAllowed config t =
    IsKnown config t.user_id × ((c : Client) × (get_client config t.client_id ≡ some c))

pub record IsRegistered (o : OidcServer) : Type 0 where
  pub sessions : Each (SessionIsAllowed o.config) o.sessions
  pub codes : Each (CodeIsAllowed o.config) o.codes
  pub tokens : Each (TokenIsAllowed o.config) o.tokens

-- A user that is found has the name that was looked for.
user_of-username :
    (us : List User) (name : String) {u : User} → user_of us name ≡ some u → u.username ≡ name
unfolding user_of
user_of-username [] name e = cc
user_of-username (v ∷ us) name {u} e =
    ground (arith, eq_iff v.username name, user_of-username us name {u = u})

module _ (ext : OidcExternal) where
  -- A user that is authenticated is the one that is found under its name.
  pub get_user-authenticate_user :
      (config : OidcConfig) (name password : String) {u : User}
      → authenticate_user ext config name password ≡ some u
      → get_user config u.username ≡ some u
  unfolding authenticate_user get_user
  get_user-authenticate_user config name password {u} e =
      elim (Option-cases (user_of config.users name)) [
        | inl nobody ↦ absurd (ground arith)
        | inr (v, found) ↦
            let same : v ≡ u = ground arith in
            let found' : user_of config.users name ≡ some u = found ∙ ap (λ w. some w) same in
            ap (user_of config.users) (user_of-username config.users name found') ∙ found'
      ]

  check_authorize-client :
      (config : OidcConfig) (r : HandlerRequest) {client : Client}
      → (check_authorize ext config r >>= check_client ext r) ≡ proceed client
      → IsAllowed config
          (form_value r.query "client_id")
          (form_value r.query "redirect_uri")
          (form_value r.query "scope")
          (form_value r.query "code_challenge")
          (form_value r.query "code_challenge_method")
  unfolding check_authorize check_client
  check_authorize-client config r {client} e = record {
    client = client;
    registered = ground arith;
    redirects = ground arith;
    scoped = ground arith;
    challenged = ground arith;
  }

  handle_authorize_get-IsRegistered :
      (o : OidcServer) (m : Moment) (r : HandlerRequest)
      → IsRegistered o
      → IsRegistered (handle_authorize_get ext o m r).0
  unfolding handle_authorize_get
  handle_authorize_get-IsRegistered o m r h =
      kept (check_authorize ext o.config r >>= check_client ext r) refl
    where
      kept :
          (checked : Checked Client)
          → (check_authorize ext o.config r >>= check_client ext r) ≡ checked
          → IsRegistered
              (elim checked as (λ _. OidcServer × HandlerResponse) [
                | refused response ↦ (o, response)
                | proceed client ↦ (
                  record o { sessions = insert m.session_id (new_session m r) o.sessions },
                  render_login_form ext o m.session_id client.client_id "",
                )
              ]).0
      kept (refused response) e = h
      kept (proceed client) e = record {
        sessions =
            Each-insert (SessionIsAllowed o.config) m.session_id (new_session m r) o.sessions
              (unfold new_session in check_authorize-client o.config r e) h.sessions;
        codes = h.codes;
        tokens = h.tokens;
      }

  log_in-IsRegistered :
      (o : OidcServer) (m : Moment) (id username password : String) (s : Option AuthSession)
      → lookup id o.sessions ≡ s
      → IsRegistered o
      → IsRegistered (log_in ext o m id username password s).0
  unfolding log_in
  log_in-IsRegistered o m id username password none e h = h
  log_in-IsRegistered o m id username password (some s) e h =
      elim (Bool-cases (after m.now s.expires_at)) [
        | inl expired ↦ rw expired h
        | inr fresh ↦ rw fresh (known (authenticate_user ext o.config username password) refl)
      ]
    where
      known :
          (user : Option User)
          → authenticate_user ext o.config username password ≡ user
          → IsRegistered
              (elim user as (λ _. OidcServer × HandlerResponse) [
                | none ↦ (o, render_login_form ext o id s.client_id "Invalid username or password")
                | some u ↦ (
                  record o {
                    codes = insert m.auth_code (new_code m s u) o.codes;
                    sessions = erase id o.sessions;
                  },
                  redirect_with_code ext m s,
                )
              ]).0
      known none e' = h
      known (some u) e' = record {
        sessions = Each-erase (SessionIsAllowed o.config) id o.sessions h.sessions;
        codes =
            Each-insert (CodeIsAllowed o.config) m.auth_code (new_code m s u) o.codes
              (unfold new_code in
                (
                  Each-lookup (SessionIsAllowed o.config) id o.sessions h.sessions e,
                  (u, get_user-authenticate_user o.config username password e'),
                ))
              h.codes;
        tokens = h.tokens;
      }

  handle_authorize_post-IsRegistered :
      (o : OidcServer) (m : Moment) (r : HandlerRequest)
      → IsRegistered o
      → IsRegistered (handle_authorize_post ext o m r).0
  unfolding handle_authorize_post
  handle_authorize_post-IsRegistered o m r h = elim (Option-cases (ext.parse_query r.body)) [
    | inl malformed ↦ rw (malformed, handle_authorize_post) h
    | inr (form, parsed) ↦
        rw (parsed, handle_authorize_post)
          (elim (Bool-cases (form_value form "session_id" == "")) [
            | inl missing ↦ rw missing h
            | inr given ↦ rw given (
                log_in-IsRegistered o m (form_value form "session_id") (form_value form "username")
                  (form_value form "password") (lookup (form_value form "session_id") o.sessions)
                  refl h)
          ])
  ]

  pub handle_authorize-IsRegistered :
      (o : OidcServer) (m : Moment) (r : HandlerRequest)
      → IsRegistered o
      → IsRegistered (handle_authorize ext o m r).0
  unfolding handle_authorize
  handle_authorize-IsRegistered o m r h = elim (Bool-cases (to_upper r.method == "GET")) [
    | inl get ↦ rw get (handle_authorize_get-IsRegistered o m r h)
    | inr other ↦ rw other (elim (Bool-cases (to_upper r.method == "POST")) [
      | inl post ↦ rw post (handle_authorize_post-IsRegistered o m r h)
      | inr neither ↦ rw neither h
    ])
  ]
