-- ===== src/Oidc/Effective.antt =====
-- What a valid configuration is loaded as: the defaults that config.go fills in.
use mathlib.Core.List.{map}
use mathlib.Core.Path.{ap₂}
use imposter_go.Common.{
  String, ◌≡◌, ◌≢◌, ◌⊎◌, refl, some, List, [], ◌∷◌, ◌==◌, arith, eq_iff, inl, inr, Bool-cases,
  Option, none, if◌then◌else◌,
}
use imposter_go.Common.Map.{lookup, insert}
use imposter_go.Common.Text.{concat, trim, trim_space, white_space}
use imposter_go.Common.Text.Laws.{IsTrimmed, trim-IsTrimmed}
use imposter_go.Oidc.{User, JwtConfig, OidcConfig}
use imposter_go.Oidc.Settings.{normalize_path_prefix, with_algorithm, with_sub, jwt_or_default}

-- The subject of a user with claims is the one among them, or else its name.
abbrev pub subject_added : User → User
subject_added u = elim u.claims [
  | none ↦ u
  | some claims ↦ elim (lookup "sub" claims) [
    | some _ ↦ u
    | none ↦ record u { claims = some (insert "sub" u.username claims) }
  ]
]

-- The configured algorithm, or RS256; nothing else is made up.
abbrev pub algorithm_given : Option JwtConfig → JwtConfig
algorithm_given none = record {
  algorithm = "RS256";
  secret = "";
  private_key_pem = "";
  public_key_pem = "";
  key_id = "";
}
algorithm_given (some j) = record j {
  algorithm = if j.algorithm == "" then "RS256" else j.algorithm;
}

-- What a valid configuration is loaded as, but for the path prefix.
abbrev pub effective : OidcConfig → OidcConfig
effective c = record c {
  path_prefix = normalize_path_prefix c.path_prefix;
  users = map subject_added c.users;
  jwt_config = some (algorithm_given c.jwt_config);
}

-- The path prefix without the white space around it, and then without the slashes around that, after
-- one slash; or /oidc where nothing is left.
abbrev pub IsPathPrefix : String → String → Type 0
IsPathPrefix prefix path =
    (spaceless rest : String) × IsTrimmed white_space prefix spaceless
    × IsTrimmed "/" spaceless rest
    × (((rest ≡ "") × (path ≡ "/oidc")) ⊎ ((rest ≢ "") × (path ≡ concat "/" rest)))

with_sub-subject_added : (u : User) → with_sub u ≡ subject_added u
unfolding with_sub
with_sub-subject_added u = ground arith

pub map-with_sub : (us : List User) → map with_sub us ≡ map subject_added us
map-with_sub [] = refl
map-with_sub (u ∷ us) = ap₂ (λ x xs. x ∷ xs) (with_sub-subject_added u) (map-with_sub us)

pub with_algorithm-given :
    (j : Option JwtConfig) → with_algorithm (jwt_or_default j) ≡ algorithm_given j
unfolding with_algorithm jwt_or_default
with_algorithm-given none = refl
with_algorithm-given (some j) = elim (Bool-cases (j.algorithm == "")) [
  | inl missing ↦ rw missing refl
  | inr given ↦ rw given refl
]

pub normalize_path_prefix-IsPathPrefix : (s : String) → IsPathPrefix s (normalize_path_prefix s)
unfolding normalize_path_prefix trim_space
normalize_path_prefix-IsPathPrefix s =
    let inner = trim s white_space in
    let rest = trim inner "/" in
    (
      inner,
      rest,
      trim-IsTrimmed s white_space,
      trim-IsTrimmed inner "/",
      elim (Bool-cases (rest == "")) [
        | inl empty ↦ rw empty (inl (ground (arith, empty, eq_iff rest ""), refl))
        | inr given ↦ rw given (inr (ground (arith, given, eq_iff rest ""), refl))
      ],
    )
