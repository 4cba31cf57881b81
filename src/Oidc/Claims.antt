-- ===== src/Oidc/Claims.antt =====
-- users.go: the password of a user, and the claims that scopes give out.
use imposter_go.Common.{
  String, ◌||◌, Option, none, some, List, [], ◌∷◌, ◌==◌, if◌then◌else◌, get_or,
}
use imposter_go.Common.Map.{Map, lookup, insert}
use imposter_go.Common.Value.{Value, string, bool}
use imposter_go.Oidc.{User, OidcConfig, OidcExternal}
use imposter_go.Oidc.Settings.{get_user}

-- authenticateUser: the stored password is the password, or a bcrypt hash of it.
unfoldable pub authenticate_user : OidcExternal → OidcConfig → String → String → Option User
authenticate_user ext config username password = elim (get_user config username) [
  | none ↦ none
  | some u ↦
      if u.password == password || ext.bcrypt_matches u.password password then some u else none
]

-- user.Claims[name], on a map that may be nil.
unfoldable pub claim : User → String → Option String
claim u name = lookup name (get_or u.claims [])

-- if v, exists := user.Claims[name]; exists { claims[name] = v }
unfoldable pub copy_claim : User → String → Map Value → Map Value
copy_claim u name claims = elim (claim u name) [
  | none ↦ claims
  | some v ↦ insert name (string v) claims
]

-- The same for a claim that is true or false.
unfoldable pub copy_flag : User → String → Map Value → Map Value
copy_flag u name claims = elim (claim u name) [
  | none ↦ claims
  | some v ↦ insert name (bool (v == "true")) claims
]

unfoldable pub scope_claims : User → String → Map Value → Map Value
scope_claims u scope claims =
    if scope == "profile"
    then copy_claim u "preferred_username" (
        copy_claim u "nickname"
          (copy_claim u "family_name" (copy_claim u "given_name" (copy_claim u "name" claims))))
    else if scope == "email"
    then copy_flag u "email_verified" (copy_claim u "email" claims)
    else if scope == "address"
    then copy_claim u "address" claims
    else if scope == "phone"
    then copy_flag u "phone_number_verified" (copy_claim u "phone_number" claims)
    else claims

unfoldable pub add_scopes : User → List String → Map Value → Map Value
add_scopes u [] claims = claims
add_scopes u (s ∷ scopes) claims = add_scopes u scopes (scope_claims u s claims)

-- getUserClaims
unfoldable pub get_user_claims : User → List String → Map Value
get_user_claims u scopes =
    add_scopes u scopes (insert "sub" (string (get_or (claim u "sub") u.username)) [])
