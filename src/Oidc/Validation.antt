-- ===== src/Oidc/Validation.antt =====
-- Which configurations are loaded, and as what.
use mathlib.Core.List.{map}
use mathlib.Core.Path.{subst}
use imposter_go.Common.{
  ℕ, ◌+◌, ◌≤◌, String, ◌≡◌, ◌≢◌, ◌↔◌, ◌⊎◌, refl, false, not, ◌&&◌, ◌||◌, List, [], ◌∷◌, ◌==◌, arith,
  eq_iff, inl, inr, Bool-cases, sym,
}
use imposter_go.Common.Lists.{All, is_empty}
use imposter_go.Common.Text.{byte_length}
use imposter_go.Oidc.{User, Client, JwtConfig, OidcConfig}
use imposter_go.Oidc.Effective.{
  algorithm_given, effective, IsPathPrefix, map-with_sub, with_algorithm-given,
  normalize_path_prefix-IsPathPrefix,
}
use imposter_go.Oidc.Settings.{
  Loaded, failed, loaded, validate_jwt_config, with_algorithm, check_algorithm, with_sub,
  validate_users, validate_clients, jwt_or_default, validate_config, load_oidc_config,
}

abbrev pub UserIsValid : User → Type 0
UserIsValid u = (u.username ≢ "") × (u.password ≢ "")

abbrev pub ClientIsValid : Client → Type 0
ClientIsValid c = (c.client_id ≢ "") × (c.redirect_uris ≢ [])

-- A secret of at least 32 bytes, or none; both keys, or none.
abbrev pub JwtIsValid : JwtConfig → Type 0
JwtIsValid j =
    ((j.algorithm ≡ "HS256") × ((j.secret ≡ "") ⊎ (32 ≤ byte_length j.secret)))
    ⊎ ((j.algorithm ≡ "RS256")
        × (((j.private_key_pem ≡ "") × (j.public_key_pem ≡ ""))
            ⊎ ((j.private_key_pem ≢ "") × (j.public_key_pem ≢ ""))))

pub record ConfigIsValid (c : OidcConfig) : Type 0 where
  pub some_user : c.users ≢ []
  pub some_client : c.clients ≢ []
  pub users : All UserIsValid c.users
  pub clients : All ClientIsValid c.clients
  pub jwt : JwtIsValid (algorithm_given c.jwt_config)

Loaded-cases :
    {A : Type 0} (l : Loaded A) → ((e : String) × (l ≡ failed e)) ⊎ ((a : A) × (l ≡ loaded a))
Loaded-cases (failed e) = inl (e, refl)
Loaded-cases (loaded a) = inr (a, refl)

validate_users-All :
    (i : ℕ) (us us' : List User)
    → validate_users i us ≡ loaded us'
    → All UserIsValid us × (us' ≡ map with_sub us)
unfolding validate_users
validate_users-All i [] us' e = (tt, ground arith)
validate_users-All i (u ∷ us) us' e = elim (Loaded-cases (validate_users (i + 1) us)) [
  | inl (message, wrong) ↦ absurd (ground arith)
  | inr (rest, right) ↦
      let (valid, same) = validate_users-All (i + 1) us rest right in
      (
        ((ground (arith, eq_iff u.username ""), ground (arith, eq_iff u.password "")), valid),
        ground (arith, right, same),
      )
]

validate_users-loaded :
    (i : ℕ) (us : List User) → All UserIsValid us → validate_users i us ≡ loaded (map with_sub us)
unfolding validate_users
validate_users-loaded i [] h = refl
validate_users-loaded i (u ∷ us) ((named, secret), h) =
    ground (arith, eq_iff u.username "", eq_iff u.password "", validate_users-loaded (i + 1) us h)

validate_clients-All :
    (i : ℕ) (cs cs' : List Client)
    → validate_clients i cs ≡ loaded cs'
    → All ClientIsValid cs × (cs' ≡ cs)
unfolding validate_clients
validate_clients-All i [] cs' e = (tt, ground arith)
validate_clients-All i (c ∷ cs) cs' e = elim (Loaded-cases (validate_clients (i + 1) cs)) [
  | inl (message, wrong) ↦ absurd (ground arith)
  | inr (rest, right) ↦
      let (valid, same) = validate_clients-All (i + 1) cs rest right in
      (
        ((ground (arith, eq_iff c.client_id ""), λ empty. ground (arith, empty)), valid),
        ground (arith, right, same),
      )
]

is_empty-ne-nil : {A : Type 0} (xs : List A) → xs ≢ [] → is_empty xs ≡ false
is_empty-ne-nil [] h = absurd (h refl)
is_empty-ne-nil (x ∷ xs) h = refl

validate_clients-loaded :
    (i : ℕ) (cs : List Client) → All ClientIsValid cs → validate_clients i cs ≡ loaded cs
unfolding validate_clients
validate_clients-loaded i [] h = refl
validate_clients-loaded i (c ∷ cs) ((named, redirects), h) = ground (
  arith,
  eq_iff c.client_id "",
  is_empty-ne-nil c.redirect_uris redirects,
  validate_clients-loaded (i + 1) cs h,
)

keys_of :
    (j : JwtConfig)
    (e : ((not (j.private_key_pem == "") || not (j.public_key_pem == ""))
        && (j.private_key_pem == "" || j.public_key_pem == ""))
      ≡ false)
    → ((j.private_key_pem ≡ "") × (j.public_key_pem ≡ ""))
      ⊎ ((j.private_key_pem ≢ "") × (j.public_key_pem ≢ ""))
keys_of j e = elim (Bool-cases (j.private_key_pem == "")) [
  | inl missing ↦ inl (
    ground (arith, eq_iff j.private_key_pem "", eq_iff j.public_key_pem ""),
    ground (arith, eq_iff j.private_key_pem "", eq_iff j.public_key_pem ""),
  )
  | inr given ↦ inr (
    ground (arith, eq_iff j.private_key_pem "", eq_iff j.public_key_pem ""),
    ground (arith, eq_iff j.private_key_pem "", eq_iff j.public_key_pem ""),
  )
]

check_algorithm-JwtIsValid :
    (j j' : JwtConfig) → check_algorithm j ≡ loaded j' → JwtIsValid j × (j' ≡ j)
unfolding check_algorithm
check_algorithm-JwtIsValid j j' e = (
  elim (Bool-cases (j.algorithm == "HS256")) [
    | inl hs256 ↦ inl (
      ground (arith, eq_iff j.algorithm "HS256"),
      elim (Bool-cases (j.secret == "")) [
        | inl missing ↦ inl (ground (arith, eq_iff j.secret ""))
        | inr given ↦ inr (ground arith)
      ],
    )
    | inr other ↦ inr (ground (arith, eq_iff j.algorithm "RS256"), keys_of j (ground arith))
  ],
  ground arith,
)

check_algorithm-loaded : (j : JwtConfig) → JwtIsValid j → check_algorithm j ≡ loaded j
unfolding check_algorithm
check_algorithm-loaded j (inl (hs256, inl missing)) =
    ground (arith, eq_iff j.algorithm "HS256", eq_iff j.secret "")
check_algorithm-loaded j (inl (hs256, inr long)) = ground (arith, eq_iff j.algorithm "HS256")
check_algorithm-loaded j (inr (rs256, inl (no_private, no_public))) =
    rw (rs256, check_algorithm)
      (ground (arith, eq_iff j.private_key_pem "", eq_iff j.public_key_pem ""))
check_algorithm-loaded j (inr (rs256, inr (a_private, a_public))) =
    rw (rs256, check_algorithm)
      (ground (arith, eq_iff j.private_key_pem "", eq_iff j.public_key_pem ""))

-- A valid configuration names its algorithm.
with_algorithm-JwtIsValid : (j : JwtConfig) → JwtIsValid j → with_algorithm j ≡ j
unfolding with_algorithm
with_algorithm-JwtIsValid j (inl (hs256, h)) = rw (hs256, with_algorithm) refl
with_algorithm-JwtIsValid j (inr (rs256, h)) = rw (rs256, with_algorithm) refl

load_oidc_config_sound :
    (c c' : OidcConfig) → load_oidc_config c ≡ loaded c' → ConfigIsValid c × (c' ≡ effective c)
unfolding load_oidc_config validate_config validate_jwt_config jwt_or_default
load_oidc_config_sound c c' e =
    let j = with_algorithm (jwt_or_default c.jwt_config) in
    elim (Loaded-cases (validate_users 0 c.users)) [
      | inl (message, wrong) ↦ absurd (ground arith)
      | inr (us, users) ↦ elim (Loaded-cases (validate_clients 0 c.clients)) [
        | inl (message, wrong) ↦ absurd (ground arith)
        | inr (cs, clients) ↦ elim (Loaded-cases (check_algorithm j)) [
          | inl (message, wrong) ↦ absurd (ground arith)
          | inr (j', jwt) ↦
              let (valid_users, us_eq) = validate_users-All 0 c.users us users in
              let (valid_clients, cs_eq) = validate_clients-All 0 c.clients cs clients in
              let (valid_jwt, j_eq) = check_algorithm-JwtIsValid j j' jwt in
              (
                record {
                  some_user = λ none_there. ground (arith, none_there);
                  some_client = λ none_there. ground (arith, none_there);
                  users = valid_users;
                  clients = valid_clients;
                  jwt = subst JwtIsValid (with_algorithm-given c.jwt_config) valid_jwt;
                },
                ground (
                  arith,
                  us_eq,
                  cs_eq,
                  j_eq,
                  with_algorithm-JwtIsValid j valid_jwt,
                  jwt,
                  map-with_sub c.users,
                  with_algorithm-given c.jwt_config,
                ),
              )
        ]
      ]
    ]

-- A configuration is loaded exactly where it has users with names and passwords, clients with
-- identifiers and redirect URIs, and a JWT configuration that is complete, where RS256 is the default.
-- What is loaded has the algorithm, the users with their names as the subjects of those that have
-- claims without one (a user without claims gets none), and the path prefix without the white space
-- and the slashes around it, after one slash, or /oidc; the rest is as it is configured.
pub load_oidc_config-ConfigIsValid :
    (c c' : OidcConfig)
    → ((load_oidc_config c ≡ loaded c') ↔ (ConfigIsValid c × (c' ≡ effective c)))
      × IsPathPrefix c.path_prefix (effective c).path_prefix
unfolding load_oidc_config validate_config validate_jwt_config jwt_or_default
load_oidc_config-ConfigIsValid c c' = (
  (
    load_oidc_config_sound c c',
    λ (valid, same).
        let j = with_algorithm (jwt_or_default c.jwt_config) in
        let complete = subst JwtIsValid (sym (with_algorithm-given c.jwt_config)) valid.jwt in
        ground (
          arith,
          is_empty-ne-nil c.users valid.some_user,
          is_empty-ne-nil c.clients valid.some_client,
          validate_users-loaded 0 c.users valid.users,
          validate_clients-loaded 0 c.clients valid.clients,
          check_algorithm-loaded j complete,
          with_algorithm-JwtIsValid j complete,
          map-with_sub c.users,
          with_algorithm-given c.jwt_config,
          same,
        ),
  ),
  normalize_path_prefix-IsPathPrefix c.path_prefix,
)
