-- ===== src/Oidc/Token.antt =====
-- token.go: the token endpoint, the ID token, and the check of an access token.
use imposter_go.Common.{
  ℕ, ◌+◌, ◌*◌, ◌/◌, String, Bool, not, ◌||◌, Option, none, some, List, [], ◌∷◌, ◌==◌, if◌then◌else◌,
  get_or,
}
use imposter_go.Common.Int.{pos}
use imposter_go.Common.Lists.{any}
use imposter_go.Common.Map.{Map, insert, erase, lookup}
use imposter_go.Common.Text.{concat, split, cut_prefix, cut_char}
use imposter_go.Common.Text.Case.{equal_fold}
use imposter_go.Common.Value.{Value, string, int64}
use imposter_go.Oidc.{
  User, OidcConfig, OidcServer, OidcExternal, AccessToken, AuthCode, HandlerRequest,
  HandlerResponse, Values, Moment, Checked, refused, proceed, ◌>>=◌, ◌>>◌, require, form_value,
  after, second,
}
use imposter_go.Oidc.Claims.{get_user_claims}
use imposter_go.Oidc.Pkce.{validate_pkce}
use imposter_go.Oidc.Settings.{get_client, get_user}

abbrev pub no_store_headers : Map String
no_store_headers =
    ("Content-Type", "application/json")
    ∷ ("Cache-Control", "no-store")
    ∷ ("Pragma", "no-cache")
    ∷ []

-- containsScope
unfoldable pub contains_scope : List String → String → Bool
contains_scope scopes scope = any (λ s. s == scope) scopes

abbrev pub expires_in : ℕ
expires_in = 3600

-- for key, value := range userClaims { if key != "sub" { claims[key] = value } }
unfoldable pub copy_but_sub : Map Value → Map Value → Map Value
copy_but_sub [] claims = claims
copy_but_sub ((k, v) ∷ more) claims =
    copy_but_sub more (if k == "sub" then claims else insert k v claims)

-- The headers that a plugin sees under either spelling.
unfoldable pub authorization : HandlerRequest → String
authorization r =
    let lower = get_or (lookup "authorization" r.headers) "" in
    if lower == "" then get_or (lookup "Authorization" r.headers) "" else lower

-- What a token request asks for, and the credentials of its client.
pub record TokenRequest : Type 0 where
  pub code : String
  pub redirect_uri : String
  pub code_verifier : String
  pub client_id : String
  pub client_secret : String

-- The claims of generateIDToken.
unfoldable pub id_claims : OidcServer → Moment → User → String → String → List String → Map Value
id_claims o m u client_id nonce scopes =
    let issued =
      ("iss", string (concat o.server_url o.path_prefix))
      ∷ ("sub", string u.username)
      ∷ ("aud", string client_id)
      ∷ ("exp", int64 (pos ((m.now + expires_in * second) / second)))
      ∷ ("iat", int64 (pos (m.now / second)))
      ∷ [] in
    copy_but_sub (get_user_claims u scopes)
      (if nonce == "" then issued else insert "nonce" (string nonce) issued)

unfoldable pub new_token : Moment → TokenRequest → AuthCode → AccessToken
new_token m q c = record {
  token = m.access_token;
  user_id = c.user_id;
  client_id = q.client_id;
  scope = c.scope;
  created_at = m.now;
  expires_at = m.now + expires_in * second;
}

module _ (ext : OidcExternal) where
  -- tokenError
  unfoldable pub token_error : String → String → HandlerResponse
  token_error code description = record {
    status_code = 400;
    headers = no_store_headers;
    body = ext.marshal_error code description;
  }

  -- parseBasicAuth
  unfoldable pub parse_basic_auth : String → Option (String × String)
  parse_basic_auth header = elim (cut_prefix header "Basic ") [
    | none ↦ none
    | some encoded ↦ if encoded == "" then none else elim (ext.base64_decode encoded) [
      | none ↦ none
      | some credentials ↦ cut_char credentials b':'
    ]
  ]

  -- The credentials of the form, or else those of the Authorization header.
  unfoldable pub credentials : HandlerRequest → Values → String × String
  credentials r form =
      let posted : String × String =
        (form_value form "client_id", form_value form "client_secret") in
      if posted.0 == ""
      then if authorization r == ""
        then posted
        else get_or (parse_basic_auth (authorization r)) posted
      else posted

  unfoldable pub parse_form : HandlerRequest → Checked Values
  parse_form r = elim (ext.parse_query r.body) [
    | none ↦ refused (token_error "invalid_request" "Invalid form data")
    | some form ↦ proceed form
  ]

  -- The checks of handleToken before it looks for the code.
  unfoldable pub parse_token_request : HandlerRequest → Checked TokenRequest
  parse_token_request r = do
    require (equal_fold r.method "POST")
        (token_error "invalid_request" "Only POST method is allowed")
    form ← parse_form r
    let (client_id, client_secret) = credentials r form
    require (form_value form "grant_type" == "authorization_code")
        (token_error "unsupported_grant_type" "Only authorization_code grant type is supported")
    require (not (form_value form "code" == "")) (token_error "invalid_request" "code is required")
    require (not (client_id == "")) (
        token_error "invalid_client"
          "client_id is required (either in form data or Authorization header)")
    require (not (form_value form "redirect_uri" == ""))
        (token_error "invalid_request" "redirect_uri is required")
    proceed (record {
      code = form_value form "code";
      redirect_uri = form_value form "redirect_uri";
      code_verifier = form_value form "code_verifier";
      client_id = client_id;
      client_secret = client_secret;
    })

  -- The checks on a code that has not expired, up to its user.
  unfoldable pub check_client_secret : OidcConfig → TokenRequest → Checked (Unit {0})
  check_client_secret config q = elim (get_client config q.client_id) [
    | none ↦ refused (token_error "invalid_client" "Unknown client")
    | some client ↦
        require (client.client_secret == "" || client.client_secret == q.client_secret)
          (token_error "invalid_client" "Invalid client credentials")
  ]

  unfoldable pub check_pkce : TokenRequest → AuthCode → Checked (Unit {0})
  check_pkce q c =
      if c.code_challenge == ""
      then proceed tt
      else elim (validate_pkce ext c.code_challenge c.challenge_method q.code_verifier) [
        | none ↦ proceed tt
        | some message ↦
            refused (token_error "invalid_grant" (concat "PKCE validation failed: " message))
      ]

  unfoldable pub check_user : OidcConfig → AuthCode → Checked User
  check_user config c = elim (get_user config c.user_id) [
    | none ↦ refused (token_error "server_error" "User not found")
    | some u ↦ proceed u
  ]

  unfoldable pub check_grant : OidcConfig → TokenRequest → AuthCode → Checked User
  check_grant config q c = do
    check_client_secret config q
    require (c.client_id == q.client_id)
        (token_error "invalid_grant" "Authorization code does not belong to this client")
    require (c.redirect_uri == q.redirect_uri)
        (token_error "invalid_grant" "redirect_uri does not match")
    check_pkce q c
    check_user config c

  -- generateIDToken
  unfoldable pub generate_id_token :
      OidcServer → Moment → User → String → String → List String → Option String
  generate_id_token o m u client_id nonce scopes =
      let claims = id_claims o m u client_id nonce scopes in
      if o.jwt.algorithm == "HS256"
      then ext.sign_hs256 o.jwt.secret claims
      else ext.sign_rs256 o.jwt claims

  unfoldable pub send_token : Option String → HandlerResponse
  send_token none = token_error "server_error" "Failed to encode response"
  send_token (some body) = record { status_code = 200; headers = no_store_headers; body = body }

  unfoldable pub token_body : Moment → AuthCode → String → Option String
  token_body m c id_token = ext.marshal_token (record {
    access_token = m.access_token;
    token_type = "Bearer";
    expires_in = expires_in;
    id_token = id_token;
    scope = c.scope;
  })

  -- The answer of handleToken, once the access token has been stored.
  unfoldable pub token_response :
      OidcServer → Moment → TokenRequest → AuthCode → User → HandlerResponse
  token_response o m q c u =
      let scopes = split c.scope b' ' in
      if contains_scope scopes "openid"
      then elim (generate_id_token o m u q.client_id c.nonce scopes) [
        | none ↦ token_error "server_error" "Failed to generate ID token"
        | some id_token ↦ send_token (token_body m c id_token)
      ]
      else send_token (token_body m c "")

  -- handleToken from the code on, as the map had it when it was read. The maps that are written are
  -- those of the server at the time of the writing: another request may come in between.
  unfoldable pub redeem :
      OidcServer → Moment → TokenRequest → Option AuthCode → OidcServer × HandlerResponse
  redeem o m q none = (o, token_error "invalid_grant" "Invalid authorization code")
  redeem o m q (some c) =
      if after m.now c.expires_at
      then (
        record o { codes = erase q.code o.codes },
        token_error "invalid_grant" "Authorization code has expired",
      )
      else elim (check_grant o.config q c) [
        | refused response ↦ (o, response)
        | proceed u ↦ (
          record o {
            tokens = insert m.access_token (new_token m q c) o.tokens;
            codes = erase q.code o.codes;
          },
          token_response o m q c u,
        )
      ]

  -- handleToken
  unfoldable pub handle_token : OidcServer → Moment → HandlerRequest → OidcServer × HandlerResponse
  handle_token o m r = elim (parse_token_request r) [
    | refused response ↦ (o, response)
    | proceed q ↦ redeem o m q (lookup q.code o.codes)
  ]

-- validateAccessToken
pub data Validated : Type 0 where
  valid : AccessToken → Validated
  invalid : String → Validated

unfoldable pub validate_access_token : OidcServer → Moment → String → OidcServer × Validated
validate_access_token o m token = elim (lookup token o.tokens) [
  | none ↦ (o, invalid "invalid token")
  | some t ↦
      if after m.now t.expires_at
      then (record o { tokens = erase token o.tokens }, invalid "token expired")
      else (o, valid t)
]
