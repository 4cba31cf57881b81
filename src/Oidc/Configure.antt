-- ===== src/Oidc/Configure.antt =====
-- plugin.go: Configure, with the keys and the cached documents.
use imposter_go.Common.{String, ◌||◌, Option, none, some, List, [], ◌∷◌, ◌==◌, if◌then◌else◌}
use imposter_go.Common.Map.{Map}
use imposter_go.Common.Text.{concat}
use imposter_go.Common.Value.{Value, string, array, Items, end, item}
use imposter_go.Oidc.{JwtConfig, OidcConfig, OidcServer}
use imposter_go.Oidc.Settings.{
  Loaded, failed, loaded, ◌>>=◌, wrap_error, default_config, normalize_path_prefix,
  load_oidc_config,
}

-- What crypto/x509 reads out of a key: an RSA key, or one of another kind.
pub data ParsedKey : Type 0 where
  rsa other : String → ParsedKey

-- What Configure calls and does not implement. None is an error.
pub record KeyExternal : Type 0 where
  -- yaml.Unmarshal
  pub unmarshal : String → Option OidcConfig
  -- generateHMACSecret, generateRSAKeyPair and uuid.New
  pub hmac_secret : Option String
  pub rsa_key_pair : Option (String × String × String)
  pub uuid : String
  pub pem_decode : String → Option String
  pub parse_pkcs8 : String → Option ParsedKey
  pub parse_pkcs1 : String → Option ParsedKey
  pub parse_pkix : String → Option ParsedKey
  -- generateJWK, of a public key and a key id
  pub jwk : String → String → Option String
  pub marshal : Map Value → Option String

-- The keys of a server.
pub record Keys : Type 0 where
  pub jwt : JwtConfig
  pub private_key : Option String
  pub public_key : Option String
  pub jwks : String

abbrev pub or_fail : {A : Type 0} → Option A → String → Loaded A
or_fail none message = failed message
or_fail (some a) message = loaded a

abbrev as_rsa : ParsedKey → String → Loaded String
as_rsa (rsa key) message = loaded key
as_rsa (other key) message = failed message

module _ (ext : KeyExternal) where
  -- The HS256 case of setupJWTKeys.
  unfoldable pub setup_secret : JwtConfig → Loaded Keys
  setup_secret jwt = do
    secret ←
        if jwt.secret == ""
        then or_fail ext.hmac_secret "failed to generate HMAC secret"
        else loaded jwt.secret
    loaded (record {
      jwt = record jwt { secret = secret };
      private_key = none;
      public_key = none;
      jwks = "";
    })

  -- The key pair: the configured one, or else one that is generated, with its key id.
  unfoldable pub key_pair : JwtConfig → Loaded JwtConfig
  key_pair jwt =
      if jwt.private_key_pem == "" || jwt.public_key_pem == ""
      then elim ext.rsa_key_pair [
        | none ↦ failed "failed to generate RSA key pair"
        | some (private, public, key_id) ↦ loaded (record jwt {
          private_key_pem = private;
          public_key_pem = public;
          key_id = if jwt.key_id == "" then key_id else jwt.key_id;
        })
      ]
      else loaded jwt

  unfoldable pub with_key_id : JwtConfig → JwtConfig
  with_key_id jwt = if jwt.key_id == "" then record jwt { key_id = ext.uuid } else jwt

  unfoldable pub parse_private_key : String → Loaded String
  parse_private_key pem = do
    block ← or_fail (ext.pem_decode pem) "failed to decode private key PEM"
    key ← elim (ext.parse_pkcs8 block) [
      | some key ↦ loaded key
      | none ↦ or_fail (ext.parse_pkcs1 block) "failed to parse private key"
    ]
    as_rsa key "private key is not an RSA key"

  unfoldable pub parse_public_key : String → Loaded String
  parse_public_key pem = do
    block ← or_fail (ext.pem_decode pem) "failed to decode public key PEM"
    key ← or_fail (ext.parse_pkix block) "failed to parse public key"
    as_rsa key "public key is not an RSA key"

  -- cacheJWKS
  unfoldable pub cache_jwks : JwtConfig → String → Loaded String
  cache_jwks jwt public = do
    jwk ← or_fail (ext.jwk public jwt.key_id) "failed to generate JWK"
    loaded (concat "{\"keys\": [" (concat jwk "]}"))

  -- The RS256 case of setupJWTKeys.
  unfoldable pub setup_key_pair : JwtConfig → Loaded Keys
  setup_key_pair jwt = do
    paired ← key_pair jwt
    let jwt' = with_key_id paired
    private ← parse_private_key jwt'.private_key_pem
    public ← parse_public_key jwt'.public_key_pem
    jwks ← wrap_error "failed to cache JWKS: " (cache_jwks jwt' public)
    loaded
        (record { jwt = jwt'; private_key = some private; public_key = some public; jwks = jwks })

  -- setupJWTKeys
  unfoldable pub setup_jwt_keys : Option JwtConfig → Loaded Keys
  setup_jwt_keys none = failed "JWT configuration is nil"
  setup_jwt_keys (some jwt) =
      if jwt.algorithm == "HS256"
      then setup_secret jwt
      else if jwt.algorithm == "RS256"
      then setup_key_pair jwt
      else failed (concat "unsupported JWT algorithm: " jwt.algorithm)

  abbrev texts : List String → Items
  texts [] = end
  texts (s ∷ ss) = item (string s) (texts ss)

  -- CacheDiscoveryDocument
  unfoldable pub cache_discovery_document : String → String → JwtConfig → Loaded String
  cache_discovery_document server_url path_prefix jwt =
      let at = λ (path : String). string (concat server_url (concat path_prefix path)) in
      or_fail
        (ext.marshal (
          ("issuer", string (concat server_url path_prefix))
          ∷ ("authorization_endpoint", at "/authorize")
          ∷ ("token_endpoint", at "/token")
          ∷ ("userinfo_endpoint", at "/userinfo")
          ∷ ("end_session_endpoint", at "/logout")
          ∷ ("jwks_uri", at "/.well-known/jwks.json")
          ∷ ("response_types_supported", array (texts ("code" ∷ [])))
          ∷ ("subject_types_supported", array (texts ("public" ∷ [])))
          ∷ ("scopes_supported", array (texts ("openid" ∷ "profile" ∷ "email" ∷ [])))
          ∷ (
            "claims_supported",
            array (texts ("sub" ∷ "name" ∷ "given_name" ∷ "family_name" ∷ "email" ∷ [])),
          )
          ∷ ("code_challenge_methods_supported", array (texts ("S256" ∷ "plain" ∷ [])))
          ∷ (
            "token_endpoint_auth_methods_supported",
            array (texts ("client_secret_basic" ∷ "client_secret_post" ∷ [])),
          )
          ∷ ("grant_types_supported", array (texts ("authorization_code" ∷ [])))
          ∷ (
            "id_token_signing_alg_values_supported",
            array
                (texts (if jwt.algorithm == "HS256" then "RS256" ∷ "HS256" ∷ [] else "RS256" ∷ [])),
          )
          ∷ []))
        "failed to cache discovery document"

  -- loadOIDCConfig, of a text that is not empty.
  unfoldable pub load_text : String → Loaded OidcConfig
  load_text text = do
    config ← or_fail (ext.unmarshal text) "failed to unmarshal plugin config"
    load_oidc_config config

  -- The loop of Configure: the first configuration that is not empty.
  unfoldable pub first_config : List String → Loaded OidcConfig → Loaded OidcConfig
  first_config [] default = default
  first_config (text ∷ more) default =
      let rest = first_config more default in if text == "" then rest else load_text text

  -- Configure of a server that has no configuration yet, from the PluginConfig fields.
  unfoldable pub configure : String → List String → Loaded OidcServer
  configure url texts = do
    config ←
        wrap_error "failed to load OIDC config from plugin config block: "
          (first_config texts (loaded default_config))
    let server_url = if url == "" then "http://localhost:8080" else url
    let path_prefix = normalize_path_prefix config.path_prefix
    keys ← wrap_error "failed to setup JWT keys: " (setup_jwt_keys config.jwt_config)
    discovery ← cache_discovery_document server_url path_prefix keys.jwt
    loaded (record {
      config = config;
      jwt = keys.jwt;
      server_url = server_url;
      path_prefix = path_prefix;
      sessions = [];
      codes = [];
      tokens = [];
      cached_jwks = keys.jwks;
      cached_discovery = discovery;
    })
