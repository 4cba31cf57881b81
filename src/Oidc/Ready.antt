-- ===== src/Oidc/Ready.antt =====
-- What a server that has been configured can sign with.
use mathlib.Core.Path.{subst}
use imposter_go.Common.{
  String, ◌≡◌, ◌⊎◌, refl, ◌∙◌, false, Option, none, some, List, [], ◌==◌, if◌then◌else◌, arith,
  eq_iff, inl, inr, Bool-cases, Option-cases,
}
use imposter_go.Oidc.{JwtConfig, OidcServer}
use imposter_go.Oidc.Settings.{
  Loaded, failed, loaded, ◌>>=◌, wrap_error, default_config, normalize_path_prefix,
}
use imposter_go.Oidc.Configure.{
  KeyExternal, Keys, setup_secret, setup_key_pair, setup_jwt_keys, key_pair, with_key_id,
  parse_private_key, parse_public_key, cache_jwks, first_config, cache_discovery_document,
  configure,
}

-- A chain of results that are there, taken apart.
>>=-eq-loaded :
    {A B : Type 0} (l : Loaded A) (f : A → Loaded B) {b : B}
    → (l >>= f) ≡ loaded b
    → (a : A) × (l ≡ loaded a) × (f a ≡ loaded b)
>>=-eq-loaded (failed e) f h = absurd (ground arith)
>>=-eq-loaded (loaded a) f h = (a, refl, h)

wrap_error-eq-loaded :
    {A : Type 0} (prefix : String) (l : Loaded A) {a : A}
    → wrap_error prefix l ≡ loaded a
    → l ≡ loaded a
wrap_error-eq-loaded prefix (failed e) h = absurd (ground arith)
wrap_error-eq-loaded prefix (loaded a) h = h

-- A secret, or an RSA key pair with an identifier.
abbrev pub CanSign : KeyExternal → JwtConfig → Type 0
CanSign ext jwt =
    ((jwt.algorithm ≡ "HS256") × ((jwt.secret == "") ≡ false))
    ⊎ ((jwt.algorithm ≡ "RS256")
        × ((jwt.key_id == "") ≡ false)
        × ((private : String) × (parse_private_key ext jwt.private_key_pem ≡ loaded private))
        × ((public : String) × (parse_public_key ext jwt.public_key_pem ≡ loaded public)))

module _ (ext : KeyExternal) (secrets : (s : String) → ext.hmac_secret ≡ some s → (s == "") ≡ false)
    (ids : (ext.uuid == "") ≡ false) where
  setup_secret-CanSign :
      (jwt : JwtConfig) (keys : Keys)
      → jwt.algorithm ≡ "HS256"
      → setup_secret ext jwt ≡ loaded keys
      → CanSign ext keys.jwt
  unfolding setup_secret
  setup_secret-CanSign jwt keys hs256 e = elim (Bool-cases (jwt.secret == "")) [
    | inl missing ↦ elim (Option-cases ext.hmac_secret) [
      | inl failure ↦ absurd (ground arith)
      | inr (s, generated) ↦ inl (ground arith, ground (arith, secrets s generated))
    ]
    | inr given ↦ inl (ground arith, ground arith)
  ]

  key_pair-algorithm :
      (jwt jwt' : JwtConfig) → key_pair ext jwt ≡ loaded jwt' → jwt'.algorithm ≡ jwt.algorithm
  unfolding key_pair
  key_pair-algorithm jwt jwt' e = ground arith

  with_key_id_lem :
      (jwt : JwtConfig)
      → ((with_key_id ext jwt).algorithm ≡ jwt.algorithm)
        × (((with_key_id ext jwt).key_id == "") ≡ false)
  unfolding with_key_id
  with_key_id_lem jwt = ground (arith, ids)

  setup_key_pair-CanSign :
      (jwt : JwtConfig) (keys : Keys)
      → jwt.algorithm ≡ "RS256"
      → setup_key_pair ext jwt ≡ loaded keys
      → CanSign ext keys.jwt
  unfolding setup_key_pair
  setup_key_pair-CanSign jwt keys rs256 e =
      let (paired, p, e1) = >>=-eq-loaded (key_pair ext jwt) _ e in
      let jwt' = with_key_id ext paired in
      let (private, pr, e2) = >>=-eq-loaded (parse_private_key ext jwt'.private_key_pem) _ e1 in
      let (public, pu, e3) = >>=-eq-loaded (parse_public_key ext jwt'.public_key_pem) _ e2 in
      let (jwks, j, e4) =
        >>=-eq-loaded (wrap_error "failed to cache JWKS: " (cache_jwks ext jwt' public)) _ e3 in
      let same : jwt' ≡ keys.jwt = ground arith in
      subst (CanSign ext) same (
        inr (
          (with_key_id_lem paired).0 ∙ key_pair-algorithm jwt paired p ∙ rs256,
          (with_key_id_lem paired).1,
          (private, pr),
          (public, pu),
        ))

  setup_jwt_keys-CanSign :
      (jwt : Option JwtConfig) (keys : Keys)
      → setup_jwt_keys ext jwt ≡ loaded keys
      → CanSign ext keys.jwt
  unfolding setup_jwt_keys
  setup_jwt_keys-CanSign none keys e = absurd (ground arith)
  setup_jwt_keys-CanSign (some jwt) keys e = elim (Bool-cases (jwt.algorithm == "HS256")) [
    | inl hs256 ↦
        setup_secret-CanSign jwt keys ((eq_iff jwt.algorithm "HS256").0 hs256) (ground arith)
    | inr other ↦ elim (Bool-cases (jwt.algorithm == "RS256")) [
      | inl rs256 ↦
          setup_key_pair-CanSign jwt keys ((eq_iff jwt.algorithm "RS256").0 rs256) (ground arith)
      | inr neither ↦ absurd (ground arith)
    ]
  ]

  -- Where generated secrets and identifiers are not empty, a server that has been configured can sign
  -- its ID tokens: it has a secret for HS256, or it has read an RSA key pair and has a key identifier for
  -- RS256. It holds no session, code or token yet, and its path prefix is the normalised one of its
  -- configuration.
  pub configure-CanSign :
      (url : String) (texts : List String) (o : OidcServer)
      → configure ext url texts ≡ loaded o
      → CanSign ext o.jwt
        × (o.path_prefix ≡ normalize_path_prefix o.config.path_prefix)
        × (o.sessions ≡ [])
        × (o.codes ≡ [])
        × (o.tokens ≡ [])
  unfolding configure
  configure-CanSign url texts o e =
      let (config, c, e1) =
        >>=-eq-loaded
          (wrap_error "failed to load OIDC config from plugin config block: "
            (first_config ext texts (loaded default_config)))
          _ e in
      let (keys, k, e2) =
        >>=-eq-loaded
          (wrap_error "failed to setup JWT keys: " (setup_jwt_keys ext config.jwt_config)) _ e1 in
      let server_url = if url == "" then "http://localhost:8080" else url in
      let (discovery, d, e3) =
        >>=-eq-loaded
          (cache_discovery_document ext server_url (normalize_path_prefix config.path_prefix)
            keys.jwt)
          _ e2 in
      let same : keys.jwt ≡ o.jwt = ground arith in
      (
        subst (CanSign ext) same (
            setup_jwt_keys-CanSign config.jwt_config keys (
              wrap_error-eq-loaded "failed to setup JWT keys: "
                (setup_jwt_keys ext config.jwt_config) k)),
        ground arith,
        ground arith,
        ground arith,
        ground arith,
      )
