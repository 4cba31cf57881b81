-- ===== src/Oidc/Tests.antt =====
-- A server with one client and two users.
use mathlib.Core.Path.{subst}
use imposter_go.Common.{
  sym, ℕ, ◌≤◌, String, ◌≡◌, ◌≢◌, ◌↔◌, refl, false, true, none, some, [], ◌∷◌, ◌==◌, if◌then◌else◌,
  arith, get_or,
}
use imposter_go.Common.Map.{lookup, insert, erase}
use imposter_go.Common.Text.{
  contains, has_prefix, split, split_from, trim, trim_left, trim_right, trim_space,
}
use imposter_go.Common.Text.Case.{equal_fold}
use imposter_go.Common.Value.{string}
use imposter_go.Oidc.{
  User, JwtConfig, AuthSession, AuthCode, AccessToken, OidcServer, HandlerRequest, OidcExternal,
  Moment, Values, proceed, form_value,
}
use imposter_go.Oidc.Authorize.{new_code, log_in}
use imposter_go.Oidc.Claims.{authenticate_user, claim, get_user_claims}
use imposter_go.Oidc.Concurrent.{redeem-redeem}
use imposter_go.Oidc.Configure.{
  KeyExternal, rsa, configure, setup_jwt_keys, setup_key_pair, key_pair, with_key_id,
  parse_private_key, parse_public_key, cache_jwks, cache_discovery_document, first_config,
}
use imposter_go.Oidc.Disclosure.{
  asked_for, claim_value, or_before, lookup-get_user_claims, lookup-id_claims,
}
use imposter_go.Oidc.Effective.{IsPathPrefix, effective}
use imposter_go.Oidc.Flow.{answer_with, log_in-handle_token}
use imposter_go.Oidc.Grants.{
  IsGranted, Issues, Proves, handle_token-IsGranted, validate_pkce-Proves,
}
use imposter_go.Oidc.Logout.{
  hinted, logout_client, check_logout, end_session, redirect_after_logout, handle_logout_request,
}
use imposter_go.Oidc.OneTime.{redemptions, redemptions-le-one}
use imposter_go.Oidc.Pkce.{validate_pkce, validate_code_challenge}
use imposter_go.Oidc.Plugin.{TransformRequest, unknown, endpoint, answer, transform_response}
use imposter_go.Oidc.Ready.{CanSign, configure-CanSign}
use imposter_go.Oidc.Admission.{IsRegistered, SessionIsAllowed}
use imposter_go.Oidc.Registered.{transform_response-IsRegistered}
use imposter_go.Oidc.Settings.{
  loaded, default_config, normalize_path_prefix, load_oidc_config, get_client, client_of, get_user,
  user_of, is_valid_redirect_uri, is_valid_post_logout_redirect_uri,
}
use imposter_go.Oidc.Token.{
  TokenRequest, parse_token_request, parse_form, credentials, check_client_secret, check_pkce,
  check_user, check_grant, redeem, new_token, token_response, contains_scope, generate_id_token,
  send_token, token_body, token_error, handle_token, valid, validate_access_token, id_claims,
}
use imposter_go.Oidc.Userinfo.{userinfo_claims}
use imposter_go.Oidc.Validation.{ConfigIsValid, load_oidc_config-ConfigIsValid}

abbrev values : Values
values =
    ("grant_type", "authorization_code" ∷ [])
    ∷ ("code", "c0" ∷ [])
    ∷ ("redirect_uri", "http://localhost:3000/callback" ∷ [])
    ∷ ("client_id", "test-client" ∷ [])
    ∷ ("client_secret", "test-secret" ∷ [])
    ∷ []

-- Forms are read as the values above, and pages are their titles.
abbrev ext : OidcExternal
ext = record {
  parse_query = λ body. some values;
  with_values = λ uri vs. some uri;
  url_path = λ url. some "";
  sha256 = λ text. text;
  base64_url = λ text. text;
  base64_decode = λ text. some text;
  bcrypt_matches = λ hash password. false;
  login_page = λ page. some "login";
  error_page = λ code description. some code;
  logout_page = some "logged out";
  marshal_error = λ code description. code;
  marshal_token = λ response. some response.access_token;
  marshal_claims = λ claims. some "claims";
  sign_hs256 = λ secret claims. some "signed";
  sign_rs256 = λ jwt claims. some "signed";
  verify_hs256 = λ secret token. none;
  verify_rs256 = λ jwt token. none;
}

abbrev jwt : JwtConfig
jwt = record {
  algorithm = "RS256";
  secret = "";
  private_key_pem = "private";
  public_key_pem = "public";
  key_id = "k";
}

abbrev session : AuthSession
session = record {
  id = "s0";
  client_id = "test-client";
  redirect_uri = "http://localhost:3000/callback";
  scope = "openid email";
  state = "";
  nonce = "";
  code_challenge = "";
  challenge_method = "";
  created_at = 0;
  expires_at = 600;
}

abbrev code : AuthCode
code = record {
  code = "c0";
  client_id = "test-client";
  redirect_uri = "http://localhost:3000/callback";
  user_id = "alice";
  scope = "openid email";
  nonce = "";
  code_challenge = "";
  challenge_method = "";
  created_at = 0;
  expires_at = 600;
}

abbrev bearer : AccessToken
bearer = record {
  token = "t0";
  user_id = "bob";
  client_id = "test-client";
  scope = "openid";
  created_at = 0;
  expires_at = 600;
}

abbrev server : OidcServer
server = record {
  config = default_config;
  jwt = jwt;
  server_url = "http://localhost:8080";
  path_prefix = "/oidc";
  sessions = ("s0", session) ∷ [];
  codes = ("c0", code) ∷ [];
  tokens = ("t0", bearer) ∷ [];
  cached_jwks = "{}";
  cached_discovery = "{}";
}

abbrev moment : ℕ → String → Moment
moment now id = record { now = now; session_id = id; auth_code = id; access_token = id }

abbrev token_request : HandlerRequest
token_request = record {
  method = "POST";
  path = "/oidc/token";
  query = [];
  headers = [];
  body = "form";
}

abbrev call : TransformRequest
call = record {
  request = token_request;
  handled = false;
  piped = record { status_code = 200; headers = []; body = "" };
}

redemptions-le-one_example :
    redemptions ext "c0" server ((moment 10 "t1", call) ∷ (moment 20 "t2", call) ∷ []) ≤ 1
redemptions-le-one_example =
    redemptions-le-one ext "c0" server ((moment 10 "t1", call) ∷ (moment 20 "t2", call) ∷ [])
      (refl, (refl, tt))

-- The first of the two is answered with a token, so that the bound is reached.
redemptions_reached :
    redemptions ext "c0" server ((moment 10 "t1", call) ∷ (moment 20 "t2", call) ∷ []) ≡ 1
unfolding redemptions transform_response handle_token parse_token_request parse_form credentials
    redeem check_grant check_client_secret check_pkce check_user token_response contains_scope
    generate_id_token send_token token_body lookup insert erase endpoint answer equal_fold
    form_value get_client client_of get_user user_of split token_error
redemptions_reached = refl

abbrev allowed : SessionIsAllowed default_config session
unfolding get_client client_of is_valid_redirect_uri contains has_prefix validate_code_challenge
allowed = record {
  client = record {
    client_id = "test-client";
    client_secret = "test-secret";
    redirect_uris = "http://localhost:8080/callback" ∷ "http://localhost:3000/callback" ∷ [];
    post_logout_redirect_uris =
        "http://localhost:8080/logged-out" ∷ "http://localhost:3000/logged-out" ∷ [];
  };
  registered = refl;
  redirects = refl;
  scoped = refl;
  challenged = refl;
}

abbrev alice : (u : User) × (get_user default_config "alice" ≡ some u)
unfolding get_user user_of
alice = (_, refl)

abbrev bob : (u : User) × (get_user default_config "bob" ≡ some u)
unfolding get_user user_of
bob = (_, refl)

server-IsRegistered : IsRegistered server
server-IsRegistered = record {
  sessions = (allowed, tt);
  codes = (
    (
      record {
        client = allowed.client;
        registered = allowed.registered;
        redirects = allowed.redirects;
        scoped = allowed.scoped;
        challenged = allowed.challenged;
      },
      alice,
    ),
    tt,
  );
  tokens = ((bob, (allowed.client, allowed.registered)), tt);
}

transform_response-IsRegistered_example :
    IsRegistered (transform_response ext server (moment 10 "t1") call).0
transform_response-IsRegistered_example =
    transform_response-IsRegistered ext server (moment 10 "t1") call server-IsRegistered

answered : (handle_token ext server (moment 10 "t1") token_request).1.status_code ≡ 200
unfolding handle_token parse_token_request parse_form credentials redeem check_grant
    check_client_secret check_pkce check_user token_response contains_scope generate_id_token
    send_token token_body lookup equal_fold form_value get_client client_of get_user user_of split
answered = refl

handle_token-IsGranted_example :
    (q : TokenRequest) × (c : AuthCode) × (parse_token_request ext token_request ≡ proceed q)
    × IsGranted ext server (moment 10 "t1") q c
    × Issues ext server
        (handle_token ext server (moment 10 "t1") token_request).0
        (moment 10 "t1")
        q
        c
handle_token-IsGranted_example =
    handle_token-IsGranted ext server (moment 10 "t1") token_request answered

abbrev verifier : String
verifier = "abcdefghijklmnopqrstuvwxyzabcdefghijklmnopqrstuvwxyz"

validate_pkce-Proves_example :
    (validate_pkce ext verifier "S256" verifier ≡ none) ↔ Proves ext verifier "S256" verifier
validate_pkce-Proves_example = validate_pkce-Proves ext verifier "S256" verifier refl

abbrev asked : TokenRequest
asked = record {
  code = "c0";
  redirect_uri = "http://localhost:3000/callback";
  code_verifier = "";
  client_id = "test-client";
  client_secret = "test-secret";
}

stored : lookup "c0" server.codes ≡ some code
unfolding lookup
stored = refl

granted : check_grant ext default_config asked code ≡ proceed alice.0
unfolding check_grant check_client_secret check_pkce check_user get_client client_of get_user
    user_of
granted = refl

redeem-redeem_example :
    let o' = (redeem ext server (moment 10 "t1") asked (lookup "c0" server.codes)).0 in
    let o'' = (redeem ext o' (moment 11 "t2") asked (lookup "c0" server.codes)).0 in
    (lookup "t1" o''.tokens ≡ some (new_token (moment 10 "t1") asked code))
    × (lookup "t2" o''.tokens ≡ some (new_token (moment 11 "t2") asked code))
redeem-redeem_example =
    redeem-redeem ext server (moment 10 "t1") (moment 11 "t2") asked asked code alice.0 alice.0
      stored stored refl refl granted granted refl

lookup-get_user_claims_example :
    lookup "email" (get_user_claims alice.0 ("openid" ∷ "email" ∷ [])) ≡ (
      if asked_for "email" ("openid" ∷ "email" ∷ [])
      then or_before (claim_value alice.0 "email") (
          if "sub" == "email"
          then some (string (get_or (claim alice.0 "sub") alice.0.username))
          else none)
      else if "sub" == "email"
      then some (string (get_or (claim alice.0 "sub") alice.0.username))
      else none)
lookup-get_user_claims_example = lookup-get_user_claims alice.0 ("openid" ∷ "email" ∷ []) "email"

-- A user whose subject is not its name.
abbrev carol : User
carol = record { username = "carol"; password = "password"; claims = some (("sub", "user-3") ∷ []) }

lookup-id_claims_example :
    (lookup "sub" (id_claims server (moment 10 "t1") carol "test-client" "" ("openid" ∷ []))
      ≡ some (string "carol"))
    × (lookup "sub" (userinfo_claims carol bearer)
        ≡ some (string (get_or (claim carol "sub") "carol")))
lookup-id_claims_example =
    lookup-id_claims server (moment 10 "t1") carol bearer "test-client" "" ("openid" ∷ [])

load_oidc_config-ConfigIsValid_example :
    ((load_oidc_config default_config ≡ loaded (effective default_config))
      ↔ (ConfigIsValid default_config × (effective default_config ≡ effective default_config)))
    × IsPathPrefix default_config.path_prefix (effective default_config).path_prefix
load_oidc_config-ConfigIsValid_example =
    load_oidc_config-ConfigIsValid default_config (effective default_config)

-- Keys are read as their texts.
abbrev keys : KeyExternal
keys = record {
  unmarshal = λ text. none;
  hmac_secret = some "secret";
  rsa_key_pair = some ("private", "public", "k");
  uuid = "k";
  pem_decode = λ text. some text;
  parse_pkcs8 = λ block. some (rsa block);
  parse_pkcs1 = λ block. some (rsa block);
  parse_pkix = λ block. some (rsa block);
  jwk = λ key id. some "jwk";
  marshal = λ document. some "{}";
}

abbrev started : OidcServer
started = record server {
  sessions = [];
  codes = [];
  tokens = [];
  cached_jwks = "{\"keys\": [jwk]}";
}

starts : configure keys "" [] ≡ loaded started
unfolding configure first_config setup_jwt_keys setup_key_pair key_pair with_key_id
    parse_private_key parse_public_key cache_jwks cache_discovery_document normalize_path_prefix
    trim trim_space trim_left trim_right
starts = refl

secret_given : (s : String) → some "secret" ≡ some s → (s == "") ≡ false
secret_given s e =
    let same : s ≡ "secret" = ground arith in subst (λ t. (t == "") ≡ false) (sym same) refl

configure-CanSign_example :
    CanSign keys started.jwt
    × (started.path_prefix ≡ normalize_path_prefix started.config.path_prefix)
    × (started.sessions ≡ [])
    × (started.codes ≡ [])
    × (started.tokens ≡ [])
configure-CanSign_example = configure-CanSign keys secret_given refl "" [] started starts

abbrev leaving : Values
leaving =
    ("client_id", "test-client" ∷ [])
    ∷ ("post_logout_redirect_uri", "http://localhost:3000/logged-out" ∷ [])
    ∷ []

sent_on : (handle_logout_request ext server leaving).1.status_code ≡ 302
unfolding handle_logout_request check_logout logout_client hinted end_session redirect_after_logout
    form_value lookup get_client client_of is_valid_post_logout_redirect_uri
sent_on = refl

served : endpoint "/oidc" "/oidc/token" ≢ unknown
unfolding endpoint
served e = ground (arith, e)

authenticated : authenticate_user ext default_config "alice" "password" ≡ some alice.0
unfolding authenticate_user get_user user_of
authenticated = refl

parsed : parse_token_request ext token_request ≡ proceed asked
unfolding parse_token_request parse_form credentials lookup equal_fold form_value
parsed = refl

registered : get_client default_config "test-client" ≡ some allowed.client
registered = allowed.registered

unproved : validate_pkce ext "" "" "" ≡ none
unfolding validate_pkce
unproved = refl

scoped : contains_scope (split "openid email" b' ') "openid" ≡ true
unfolding contains_scope split split_from
scoped = refl

signed :
    (o : OidcServer)
    → o.jwt ≡ jwt
    → generate_id_token ext o (moment 10 "t1") alice.0 "test-client" "" (split "openid email" b' ')
      ≡ some "signed"
unfolding generate_id_token
signed o same = rw (same, generate_id_token) refl

keys_kept : (log_in ext server (moment 5 "c0") "s0" "alice" "password" (some session)).0.jwt ≡ jwt
unfolding log_in authenticate_user get_user user_of
keys_kept = refl

log_in-handle_token_example :
    let logged_in = (log_in ext server (moment 5 "c0") "s0" "alice" "password" (some session)).0 in
    let o' = (handle_token ext logged_in (moment 10 "t1") token_request).0 in
    let t = new_token (moment 10 "t1") asked (new_code (moment 5 "c0") session alice.0) in
    ((handle_token ext logged_in (moment 10 "t1") token_request).1 ≡ answer_with "t1")
    × (t.user_id ≡ "alice")
    × (t.scope ≡ "openid email")
    × ((validate_access_token o' (moment 20 "") "t1").1 ≡ valid t)
unfolding allowed alice
log_in-handle_token_example =
    log_in-handle_token ext server (moment 5 "c0") (moment 10 "t1") (moment 20 "") "s0" "alice"
      "password" token_request session alice.0 allowed.client asked "signed" "t1" refl authenticated
      parsed refl (omega arith) registered refl refl refl unproved scoped
      (signed (log_in ext server (moment 5 "c0") "s0" "alice" "password" (some session)).0
        keys_kept)
      refl (omega arith)
