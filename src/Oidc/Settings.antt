-- ===== src/Oidc/Settings.antt =====
-- config.go of the OIDC plugin: the path prefix, the validation of the configuration, and the lookups
-- in it. The configuration is taken as yaml.Unmarshal leaves it.
use imposter_go.Common.{
  ℕ, ◌+◌, String, Bool, not, ◌&&◌, ◌||◌, Option, none, some, List, [], ◌∷◌, ◌==◌, if◌then◌else◌,
  ltb, is_none,
}
use imposter_go.Common.Lists.{any, is_empty}
use imposter_go.Common.Map.{lookup, insert}
use imposter_go.Common.Text.{concat, trim, trim_space, byte_length}
use imposter_go.Common.Text.Number.{itoa}
use imposter_go.Oidc.{User, Client, JwtConfig, OidcConfig}

abbrev pub default_path_prefix : String
default_path_prefix = "/oidc"

-- normalizePathPrefix
unfoldable pub normalize_path_prefix : String → String
normalize_path_prefix prefix =
    let trimmed = trim (trim_space prefix) "/" in
    if trimmed == "" then default_path_prefix else concat "/" trimmed

-- An error with its message, or the configuration as the function leaves it.
pub data Loaded (A : Type 0) : Type 0 where
  failed : String → Loaded A
  loaded : A → Loaded A

infixl 5 ◌>>=◌
abbrev pub ◌>>=◌ : {A B : Type 0} → Loaded A → (A → Loaded B) → Loaded B
failed e >>= f = failed e
loaded a >>= f = f a

-- The error of a call, wrapped.
abbrev pub wrap_error : {A : Type 0} → String → Loaded A → Loaded A
wrap_error prefix (failed e) = failed (concat prefix e)
wrap_error prefix (loaded a) = loaded a

-- The algorithm that validateJWTConfig sets where there is none.
unfoldable pub with_algorithm : JwtConfig → JwtConfig
with_algorithm jwt = if jwt.algorithm == "" then record jwt { algorithm = "RS256" } else jwt

unfoldable pub check_algorithm : JwtConfig → Loaded JwtConfig
check_algorithm jwt =
    if jwt.algorithm == "HS256"
    then if not (jwt.secret == "") && ltb (byte_length jwt.secret) 32
      then failed "HS256 secret must be at least 32 characters long for security"
      else loaded jwt
    else if jwt.algorithm == "RS256"
    then if (not (jwt.private_key_pem == "") || not (jwt.public_key_pem == ""))
        && (jwt.private_key_pem == "" || jwt.public_key_pem == "")
      then failed
          "both private_key and public_key must be provided for RS256, or neither (for auto-generation)"
      else loaded jwt
    else failed
        (concat "unsupported algorithm: " (concat jwt.algorithm " (supported: HS256, RS256)"))

-- validateJWTConfig
unfoldable pub validate_jwt_config : JwtConfig → Loaded JwtConfig
validate_jwt_config jwt = check_algorithm (with_algorithm jwt)

-- The sub claim is added to a map that is there; a nil map is replaced in a copy of the user only.
unfoldable pub with_sub : User → User
with_sub u = elim u.claims [
  | none ↦ u
  | some claims ↦ record u {
    claims =
        some (if is_none (lookup "sub" claims) then insert "sub" u.username claims else claims);
  }
]

abbrev at_index : String → ℕ → String → String
at_index what i message = concat what (concat " at index " (concat (itoa i) (concat ": " message)))

unfoldable pub validate_users : ℕ → List User → Loaded (List User)
validate_users i [] = loaded []
validate_users i (u ∷ us) =
    let rest = validate_users (i + 1) us in
    if u.username == ""
    then failed (at_index "user" i "username is required")
    else if u.password == ""
    then failed (at_index "user" i "password is required")
    else (do us' ← rest; loaded (with_sub u ∷ us'))

unfoldable pub validate_clients : ℕ → List Client → Loaded (List Client)
validate_clients i [] = loaded []
validate_clients i (c ∷ cs) =
    let rest = validate_clients (i + 1) cs in
    if c.client_id == ""
    then failed (at_index "client" i "client_id is required")
    else if is_empty c.redirect_uris
    then failed (at_index "client" i "at least one redirect_uri is required")
    else (do cs' ← rest; loaded (c ∷ cs'))

abbrev pub default_jwt_config : JwtConfig
default_jwt_config = record {
  algorithm = "RS256";
  secret = "";
  private_key_pem = "";
  public_key_pem = "";
  key_id = "";
}

unfoldable pub jwt_or_default : Option JwtConfig → JwtConfig
jwt_or_default none = default_jwt_config
jwt_or_default (some jwt) = jwt

-- validateConfig
unfoldable pub validate_config : OidcConfig → Loaded OidcConfig
validate_config c =
    if is_empty c.users
    then failed "at least one user must be configured"
    else if is_empty c.clients
    then failed "at least one client must be configured"
    else (do
      users ← validate_users 0 c.users
      clients ← validate_clients 0 c.clients
      jwt ←
          wrap_error "invalid JWT configuration: "
            (validate_jwt_config (jwt_or_default c.jwt_config))
      loaded (record c { users = users; clients = clients; jwt_config = some jwt }))

-- loadOIDCConfig, after the unmarshalling.
unfoldable pub load_oidc_config : OidcConfig → Loaded OidcConfig
load_oidc_config c = do
  c' ←
      wrap_error "invalid plugin configuration: "
        (validate_config (record c { path_prefix = normalize_path_prefix c.path_prefix }))
  jwt ←
      wrap_error "invalid JWT configuration: " (validate_jwt_config (jwt_or_default c'.jwt_config))
  loaded (record c' { jwt_config = some jwt })

abbrev default_user : String → String → String → String → User
default_user username name family_name email = record {
  username = username;
  password = "password";
  claims = some (
      ("sub", username)
      ∷ ("name", concat name (concat " " family_name))
      ∷ ("given_name", name)
      ∷ ("family_name", family_name)
      ∷ ("email", email)
      ∷ []);
}

-- getDefaultConfig
abbrev pub default_config : OidcConfig
default_config = record {
  path_prefix = default_path_prefix;
  users =
      default_user "alice" "Alice" "Smith" "alice@example.com"
      ∷ default_user "bob" "Bob" "Jones" "bob@example.com"
      ∷ [];
  clients =
      record {
        client_id = "test-client";
        client_secret = "test-secret";
        redirect_uris = "http://localhost:8080/callback" ∷ "http://localhost:3000/callback" ∷ [];
        post_logout_redirect_uris =
            "http://localhost:8080/logged-out" ∷ "http://localhost:3000/logged-out" ∷ [];
      }
      ∷ [];
  jwt_config = some default_jwt_config;
}

-- GetUser and GetClient
unfoldable pub user_of : List User → String → Option User
user_of [] name = none
user_of (u ∷ us) name = if u.username == name then some u else user_of us name

unfoldable pub get_user : OidcConfig → String → Option User
get_user c name = user_of c.users name

unfoldable pub client_of : List Client → String → Option Client
client_of [] id = none
client_of (c ∷ cs) id = if c.client_id == id then some c else client_of cs id

unfoldable pub get_client : OidcConfig → String → Option Client
get_client c id = client_of c.clients id

unfoldable pub is_valid_redirect_uri : Client → String → Bool
is_valid_redirect_uri c uri = any (λ valid. valid == uri) c.redirect_uris

unfoldable pub is_valid_post_logout_redirect_uri : Client → String → Bool
is_valid_post_logout_redirect_uri c uri = any (λ valid. valid == uri) c.post_logout_redirect_uris
