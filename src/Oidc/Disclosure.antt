-- ===== src/Oidc/Disclosure.antt =====
-- Which claims of a user the scopes give out.
use mathlib.Core.Path.{subst}
use mathlib.Core.Bool.{cond}
use imposter_go.Common.{
  String, ◌≡◌, refl, sym, ◌∙◌, Bool, true, false, ◌||◌, Option, none, some, List, [], ◌∷◌, ◌==◌,
  if◌then◌else◌, get_or, arith, eq_iff, inl, inr, Bool-cases, Option-cases,
}
use imposter_go.Common.Lists.{any}
use imposter_go.Common.Map.{Map, lookup, insert, lookup-insert, lookup-empty}
use imposter_go.Common.Value.{Value, string, bool}
use imposter_go.Common.Text.{split}
use imposter_go.Oidc.{User, OidcServer, Moment, AccessToken}
use imposter_go.Oidc.Token.{copy_but_sub, id_claims}
use imposter_go.Oidc.Userinfo.{userinfo_claims}
use imposter_go.Oidc.Claims.{
  claim, copy_claim, copy_flag, scope_claims, add_scopes, get_user_claims,
}

-- The scopes of OpenID Connect, with the claims that each asks for.
abbrev pub claims_of : String → List String
claims_of scope =
    if scope == "profile"
    then "name" ∷ "given_name" ∷ "family_name" ∷ "nickname" ∷ "preferred_username" ∷ []
    else if scope == "email"
    then "email" ∷ "email_verified" ∷ []
    else if scope == "address"
    then "address" ∷ []
    else if scope == "phone"
    then "phone_number" ∷ "phone_number_verified" ∷ []
    else []

abbrev pub among : String → List String → Bool
among name names = any (λ n. n == name) names

-- The value of a claim of the user: a flag for the two that say whether something is verified.
abbrev pub claim_value : User → String → Option Value
claim_value u name = elim (claim u name) [
  | none ↦ none
  | some v ↦ some (
      if among name ("email_verified" ∷ "phone_number_verified" ∷ [])
      then bool (v == "true")
      else string v)
]

-- A claim, where it has been added, or else what stood before.
abbrev pub or_before : Option Value → Option Value → Option Value
or_before none before = before
or_before (some v) before = some v

lookup-copy_claim :
    (u : User) (name key : String) (claims : Map Value)
    → among name ("email_verified" ∷ "phone_number_verified" ∷ []) ≡ false
    → lookup key (copy_claim u name claims) ≡ (
        if name == key
        then or_before (claim_value u key) (lookup key claims)
        else lookup key claims)
unfolding copy_claim
lookup-copy_claim u name key claims plain = elim (Option-cases (claim u name)) [
  | inl missing ↦ ground (arith, eq_iff name key, missing)
  | inr (v, e) ↦ ground (arith, eq_iff name key, lookup-insert name key (string v) claims, e)
]

lookup-copy_flag :
    (u : User) (name key : String) (claims : Map Value)
    → among name ("email_verified" ∷ "phone_number_verified" ∷ []) ≡ true
    → lookup key (copy_flag u name claims) ≡ (
        if name == key
        then or_before (claim_value u key) (lookup key claims)
        else lookup key claims)
unfolding copy_flag
lookup-copy_flag u name key claims flag = elim (Option-cases (claim u name)) [
  | inl missing ↦ ground (arith, eq_iff name key, missing)
  | inr (v, e) ↦
      ground (arith, eq_iff name key, lookup-insert name key (bool (v == "true")) claims, e)
]

-- A key of a scope is added, where the user has the claim; any other key is left as it was.
abbrev AddsClaims : User → String → String → Map Value → Type 0
AddsClaims u scope key claims = lookup key (scope_claims u scope claims) ≡ (
    if among key (claims_of scope)
    then or_before (claim_value u key) (lookup key claims)
    else lookup key claims)

scope_claims-profile :
    (u : User) (key : String) (claims : Map Value) → AddsClaims u "profile" key claims
unfolding scope_claims
scope_claims-profile u key c =
    let c1 = copy_claim u "name" c in
    let c2 = copy_claim u "given_name" c1 in
    let c3 = copy_claim u "family_name" c2 in
    let c4 = copy_claim u "nickname" c3 in
    ground (
      arith,
      lookup-copy_claim u "name" key c refl,
      lookup-copy_claim u "given_name" key c1 refl,
      lookup-copy_claim u "family_name" key c2 refl,
      lookup-copy_claim u "nickname" key c3 refl,
      lookup-copy_claim u "preferred_username" key c4 refl,
    )

scope_claims-email :
    (u : User) (key : String) (claims : Map Value) → AddsClaims u "email" key claims
unfolding scope_claims
scope_claims-email u key c = ground (
  arith,
  lookup-copy_claim u "email" key c refl,
  lookup-copy_flag u "email_verified" key (copy_claim u "email" c) refl,
)

scope_claims-address :
    (u : User) (key : String) (claims : Map Value) → AddsClaims u "address" key claims
unfolding scope_claims
scope_claims-address u key c = ground (arith, lookup-copy_claim u "address" key c refl)

scope_claims-phone :
    (u : User) (key : String) (claims : Map Value) → AddsClaims u "phone" key claims
unfolding scope_claims
scope_claims-phone u key c = ground (
  arith,
  lookup-copy_claim u "phone_number" key c refl,
  lookup-copy_flag u "phone_number_verified" key (copy_claim u "phone_number" c) refl,
)

scope_claims-other :
    (u : User) (scope key : String) (claims : Map Value)
    → (scope == "profile") ≡ false
    → (scope == "email") ≡ false
    → (scope == "address") ≡ false
    → (scope == "phone") ≡ false
    → AddsClaims u scope key claims
unfolding scope_claims
scope_claims-other u scope key c a b d e = ground arith

scope_claims-AddsClaims :
    (u : User) (scope key : String) (claims : Map Value) → AddsClaims u scope key claims
scope_claims-AddsClaims u scope key c =
    let P : String → Type 0 = λ s. AddsClaims u s key c in
    elim (Bool-cases (scope == "profile")) [
      | inl e ↦ subst P (sym ((eq_iff scope "profile").0 e)) (scope_claims-profile u key c)
      | inr not_profile ↦ elim (Bool-cases (scope == "email")) [
        | inl e ↦ subst P (sym ((eq_iff scope "email").0 e)) (scope_claims-email u key c)
        | inr not_email ↦ elim (Bool-cases (scope == "address")) [
          | inl e ↦ subst P (sym ((eq_iff scope "address").0 e)) (scope_claims-address u key c)
          | inr not_address ↦ elim (Bool-cases (scope == "phone")) [
            | inl e ↦ subst P (sym ((eq_iff scope "phone").0 e)) (scope_claims-phone u key c)
            | inr not_phone ↦
                scope_claims-other u scope key c not_profile not_email not_address not_phone
          ]
        ]
      ]
    ]

abbrev pub asked_for : String → List String → Bool
asked_for key scopes = any (λ s. among key (claims_of s)) scopes

lookup-add_scopes :
    (u : User) (scopes : List String) (key : String) (claims : Map Value)
    → lookup key (add_scopes u scopes claims) ≡ (
        if asked_for key scopes
        then or_before (claim_value u key) (lookup key claims)
        else lookup key claims)
unfolding add_scopes
lookup-add_scopes u [] key claims = refl
lookup-add_scopes u (s ∷ scopes) key claims =
    lookup-add_scopes u scopes key (scope_claims u s claims)
    ∙ again (among key (claims_of s)) (asked_for key scopes) (claim_value u key) (lookup key claims)
        (scope_claims-AddsClaims u s key claims)
  where
    again :
        (a b : Bool) (v before : Option Value) {now : Option Value}
        → now ≡ (if a then or_before v before else before)
        → (if b then or_before v now else now) ≡ (if a || b then or_before v before else before)
    again a b v before e = ground arith

-- A claim is given out exactly where it is the subject, or the user has it and a scope asks for it;
-- its value is that of the user, and the subject is the claim of that name or else the user's name.
pub lookup-get_user_claims :
    (u : User) (scopes : List String) (key : String)
    → lookup key (get_user_claims u scopes) ≡ (
        if asked_for key scopes
        then or_before
            (claim_value u key)
            (if "sub" == key then some (string (get_or (claim u "sub") u.username)) else none)
        else if "sub" == key
        then some (string (get_or (claim u "sub") u.username))
        else none)
unfolding get_user_claims
lookup-get_user_claims u scopes key =
    let subject = string (get_or (claim u "sub") u.username) in
    ground (
      arith,
      lookup-add_scopes u scopes key (insert "sub" subject []),
      lookup-insert "sub" key subject [],
      lookup-empty {V = Value} key,
    )

lookup-copy_but_sub :
    (m claims : Map Value) → lookup "sub" (copy_but_sub m claims) ≡ lookup "sub" claims
unfolding copy_but_sub
lookup-copy_but_sub [] claims = refl
lookup-copy_but_sub ((k, v) ∷ m) claims =
    lookup-copy_but_sub m (if k == "sub" then claims else insert k v claims)
    ∙ kept (k == "sub") (lookup-insert k "sub" v claims)
  where
    kept :
        (b : Bool)
        → lookup "sub" (insert k v claims) ≡ cond b (some v) (lookup "sub" claims)
        → lookup "sub" (if b then claims else insert k v claims) ≡ lookup "sub" claims
    kept true e = refl
    kept false e = e

-- "sub" is no claim of a scope.
sub_is_unscoped : (s : String) → among "sub" (claims_of s) ≡ false
sub_is_unscoped s = ground arith

no_scope_asks_for_sub : (scopes : List String) → asked_for "sub" scopes ≡ false
no_scope_asks_for_sub [] = refl
no_scope_asks_for_sub (s ∷ scopes) = ground (arith, no_scope_asks_for_sub scopes, sub_is_unscoped s)

issued_sub :
    (o : OidcServer) (m : Moment) (u : User) (client_id nonce : String) (scopes : List String)
    → lookup "sub" (id_claims o m u client_id nonce scopes) ≡ some (string u.username)
unfolding id_claims lookup
issued_sub o m u client_id nonce scopes = elim (Bool-cases (nonce == "")) [
  | inl absent ↦ rw (absent, id_claims) (lookup-copy_but_sub (get_user_claims u scopes) _ ∙ refl)
  | inr given ↦
      rw (given, id_claims)
        (lookup-copy_but_sub (get_user_claims u scopes) _ ∙ (unfold insert in refl))
]

-- The subject of an ID token is the user's name. The userinfo endpoint gives the claim "sub" of the user
-- where there is one.
pub lookup-id_claims :
    (o : OidcServer) (m : Moment) (u : User) (t : AccessToken) (client_id nonce : String)
    (scopes : List String)
    → (lookup "sub" (id_claims o m u client_id nonce scopes) ≡ some (string u.username))
      × (lookup "sub" (userinfo_claims u t) ≡ some (string (get_or (claim u "sub") u.username)))
unfolding id_claims userinfo_claims
lookup-id_claims o m u t client_id nonce scopes =
    let scopes' = split t.scope b' ' in
    let subject = string (get_or (claim u "sub") u.username) in
    let sub : lookup "sub" (get_user_claims u scopes') ≡ some subject =
      ground (arith, lookup-get_user_claims u scopes' "sub", no_scope_asks_for_sub scopes') in
    (issued_sub o m u client_id nonce scopes, ground (arith, sub))
