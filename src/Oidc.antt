-- ===== src/Oidc.antt =====
-- external/plugins/oidc-server: the state of the OpenID Connect server (plugin.go), its requests and
-- responses (external/shared/model.go), and the functions it calls.
mod Tests
pub mod Admission
pub mod Authorize
pub mod Claims
pub mod Concurrent
pub mod Configure
pub mod Disclosure
pub mod Effective
pub mod Ending
pub mod Flow
pub mod Grants
pub mod Logout
pub mod OneTime
pub mod Pkce
pub mod Ready
pub mod Registered
pub mod Plugin
pub mod Settings
pub mod Token
pub mod Userinfo
pub mod Validation
use imposter_go.Common.{
  ◌≡◌, refl, ◌⊎◌, inl, inr, ℕ, ◌*◌, ◌^◌, String, Bool, true, false, Option, none, some, List, [],
  ◌∷◌, ltb,
}
use imposter_go.Common.Map.{Map, lookup}
use imposter_go.Common.Value.{Value}

pub record User : Type 0 where
  pub username : String
  pub password : String
  -- none is a nil map
  pub claims : Option (Map String)

pub record Client : Type 0 where
  pub client_id : String
  pub client_secret : String
  pub redirect_uris : List String
  pub post_logout_redirect_uris : List String

pub record JwtConfig : Type 0 where
  pub algorithm : String
  pub secret : String
  pub private_key_pem : String
  pub public_key_pem : String
  pub key_id : String

pub record OidcConfig : Type 0 where
  pub path_prefix : String
  pub users : List User
  pub clients : List Client
  pub jwt_config : Option JwtConfig

-- Times are nanoseconds since the epoch.
pub record AuthSession : Type 0 where
  pub id : String
  pub client_id : String
  pub redirect_uri : String
  pub scope : String
  pub state : String
  pub nonce : String
  pub code_challenge : String
  pub challenge_method : String
  pub created_at : ℕ
  pub expires_at : ℕ

pub record AuthCode : Type 0 where
  pub code : String
  pub client_id : String
  pub redirect_uri : String
  pub user_id : String
  pub scope : String
  pub nonce : String
  pub code_challenge : String
  pub challenge_method : String
  pub created_at : ℕ
  pub expires_at : ℕ

pub record AccessToken : Type 0 where
  pub token : String
  pub user_id : String
  pub client_id : String
  pub scope : String
  pub created_at : ℕ
  pub expires_at : ℕ

-- OIDCServer, once Configure has succeeded: `jwt` is config.JWTConfig, which setupJWTKeys does not
-- let be nil, and the keys are those that it has read.
pub record OidcServer : Type 0 where
  pub config : OidcConfig
  pub jwt : JwtConfig
  pub server_url : String
  pub path_prefix : String
  pub sessions : Map AuthSession
  pub codes : Map AuthCode
  pub tokens : Map AccessToken
  pub cached_jwks : String
  pub cached_discovery : String

-- url.Values
abbrev pub Values : Type 0
Values = Map (List String)

pub record HandlerRequest : Type 0 where
  pub method : String
  pub path : String
  pub query : Values
  pub headers : Map String
  pub body : String

pub record HandlerResponse : Type 0 where
  pub status_code : ℕ
  pub headers : Map String
  pub body : String

pub record TokenResponse : Type 0 where
  pub access_token : String
  pub token_type : String
  pub expires_in : ℕ
  pub id_token : String
  pub scope : String

-- What the login page shows.
pub record LoginPage : Type 0 where
  pub session_id : String
  pub client_id : String
  pub server_base : String
  pub path_prefix : String
  pub error : String

-- What the plugin calls and does not implement. None is an error.
pub record OidcExternal : Type 0 where
  -- url.ParseQuery
  pub parse_query : String → Option Values
  -- url.Parse and String, with these values set in the query
  pub with_values : String → List (String × String) → Option String
  -- url.Parse(s).Path
  pub url_path : String → Option String
  pub sha256 : String → String
  -- base64.URLEncoding.EncodeToString and base64.StdEncoding.DecodeString
  pub base64_url : String → String
  pub base64_decode : String → Option String
  -- bcrypt.CompareHashAndPassword
  pub bcrypt_matches : String → String → Bool
  -- the templates of templates.go
  pub login_page : LoginPage → Option String
  pub error_page : String → String → Option String
  pub logout_page : Option String
  -- json.Marshal
  pub marshal_error : String → String → String
  pub marshal_token : TokenResponse → Option String
  pub marshal_claims : Map Value → Option String
  -- the signing and the checking of a JWT: with a secret, and with the RSA keys and a key id
  pub sign_hs256 : String → Map Value → Option String
  pub sign_rs256 : JwtConfig → Map Value → Option String
  pub verify_hs256 : String → String → Option (Map Value)
  pub verify_rs256 : JwtConfig → String → Option (Map Value)

-- What one request gets from time.Now, uuid.New and rand.Read.
pub record Moment : Type 0 where
  pub now : ℕ
  pub session_id : String
  pub auth_code : String
  pub access_token : String

abbrev pub second : ℕ
second = 10 ^ 9

abbrev pub ten_minutes : ℕ
ten_minutes = 600 * 10 ^ 9

-- time.Now().After(expires_at)
abbrev pub after : ℕ → ℕ → Bool
after now expires_at = ltb expires_at now

-- values.Get(key): the first value, or none as the empty text.
abbrev first_value : Option (List String) → String
first_value (some (v ∷ vs)) = v
first_value _ = ""

unfoldable pub form_value : Values → String → String
form_value values key = first_value (lookup key values)

-- The result of the checks of a handler: the answer of an early return, or what it goes on with.
pub data Checked (A : Type 0) : Type 0 where
  refused : HandlerResponse → Checked A
  proceed : A → Checked A

infixl 5 ◌>>=◌ ◌>>◌
abbrev pub ◌>>=◌ : {A B : Type 0} → Checked A → (A → Checked B) → Checked B
refused r >>= f = refused r
proceed a >>= f = f a

abbrev pub ◌>>◌ : {B : Type 0} → Checked (Unit {0}) → Checked B → Checked B
m >> k = m >>= λ _. k

-- if !ok { return r }
abbrev pub require : Bool → HandlerResponse → Checked (Unit {0})
require true r = proceed tt
require false r = refused r

pub Checked-cases :
    {A : Type 0} (c : Checked A)
    → ((r : HandlerResponse) × (c ≡ refused r)) ⊎ ((a : A) × (c ≡ proceed a))
Checked-cases (refused r) = inl (r, refl)
Checked-cases (proceed a) = inr (a, refl)
