-- ===== src/Oidc/Grants.antt =====
-- When the token endpoint gives out a token, and what a proof key has to be.
use mathlib.Core.Path.{subst}
use imposter_go.Common.{
  eq_refl, ◌≤◌, String, ◌≡◌, ◌≢◌, ◌↔◌, ◌⊎◌, refl, sym, ◌∙◌, ap, true, false, Option, none, some,
  ◌==◌, arith, eq_iff, inl, inr, Bool-cases, Option-cases,
}
use imposter_go.Common.Map.{lookup, lookup-insert, lookup-erase}
use imposter_go.Common.Text.{byte_length, all_chars}
use imposter_go.Oidc.{
  Checked-cases, OidcServer, OidcExternal, AuthCode, User, Client, HandlerRequest, Moment, proceed,
  after,
}
use imposter_go.Oidc.OneTime.{Parsed, parse_token_request-Parsed, IsError, check_grant-IsError}
use imposter_go.Oidc.Pkce.{validate_pkce, base64_url_encode, is_valid_pkce_char}
use imposter_go.Oidc.Settings.{get_client, get_user}
use imposter_go.Oidc.Token.{
  TokenRequest, parse_token_request, check_client_secret, check_pkce, check_user, check_grant,
  redeem, new_token, token_error, handle_token,
}

-- A proof key in the right form, which the challenge was made of.
abbrev pub Proves : OidcExternal → String → String → String → Type 0
Proves ext challenge method verifier =
    (verifier ≢ "")
    × (43 ≤ byte_length verifier)
    × (byte_length verifier ≤ 128)
    × (all_chars is_valid_pkce_char verifier ≡ true)
    × ((((method ≡ "plain") ⊎ (method ≡ "")) × (challenge ≡ verifier))
        ⊎ ((method ≡ "S256") × (challenge ≡ base64_url_encode ext (ext.sha256 verifier))))

-- The method of a challenge that is met.
method_of :
    (ext : OidcExternal) (challenge method verifier : String)
    → (challenge == "") ≡ false
    → validate_pkce ext challenge method verifier ≡ none
    → (((method ≡ "plain") ⊎ (method ≡ "")) × (challenge ≡ verifier))
      ⊎ ((method ≡ "S256") × (challenge ≡ base64_url_encode ext (ext.sha256 verifier)))
unfolding validate_pkce
method_of ext challenge method verifier given e = elim (Bool-cases (method == "plain")) [
  | inl plain ↦
      inl (inl (ground (arith, eq_iff method "plain")), ground (arith, eq_iff challenge verifier))
  | inr other ↦ elim (Bool-cases (method == "")) [
    | inl empty ↦
        inl (inr (ground (arith, eq_iff method "")), ground (arith, eq_iff challenge verifier))
    | inr named ↦ inr (
      ground (arith, eq_iff method "S256"),
      ground (arith, eq_iff challenge (base64_url_encode ext (ext.sha256 verifier))),
    )
  ]
]

-- A challenge is met by the proof keys that it was made of, and by no others.
pub validate_pkce-Proves :
    (ext : OidcExternal) (challenge method verifier : String)
    → (challenge == "") ≡ false
    → (validate_pkce ext challenge method verifier ≡ none) ↔ Proves ext challenge method verifier
unfolding validate_pkce
validate_pkce-Proves ext challenge method verifier given = (
  λ e. (
    ground (arith, eq_iff verifier ""),
    ground arith,
    ground arith,
    ground arith,
    method_of ext challenge method verifier given e,
  ),
  λ p. elim p.4 [
    | inl (inl plain, same) ↦ ground (
      arith,
      eq_iff verifier "",
      eq_iff method "plain",
      eq_iff challenge verifier,
      p.0,
      p.1,
      p.2,
      p.3,
      plain,
      same,
    )
    | inl (inr empty, same) ↦ ground (
      arith,
      eq_iff verifier "",
      eq_iff method "plain",
      eq_iff method "",
      eq_iff challenge verifier,
      p.0,
      p.1,
      p.2,
      p.3,
      empty,
      same,
    )
    | inr (hashed, same) ↦
        rw (hashed, validate_pkce)
          (ground (
            arith,
            eq_iff verifier "",
            eq_iff challenge (base64_url_encode ext (ext.sha256 verifier)),
            p.0,
            p.1,
            p.2,
            p.3,
            same,
          ))
  ],
)

-- What has been checked where a token is given out for a code.
pub record IsGranted (ext : OidcExternal) (o : OidcServer) (m : Moment) (q : TokenRequest)
    (c : AuthCode) : Type 0 where
  pub client : Client
  pub user : User
  pub stored : lookup q.code o.codes ≡ some c
  pub unexpired : m.now ≤ c.expires_at
  pub registered : get_client o.config q.client_id ≡ some client
  pub authenticated : (client.client_secret ≡ "") ⊎ (client.client_secret ≡ q.client_secret)
  pub owned : c.client_id ≡ q.client_id
  pub redirected : c.redirect_uri ≡ q.redirect_uri
  pub proved :
      (c.code_challenge ≡ "")
      ⊎ (validate_pkce ext c.code_challenge c.challenge_method q.code_verifier ≡ none)
  pub known : get_user o.config c.user_id ≡ some user

module _ (ext : OidcExternal) where
  check_grant-IsGranted :
      (o : OidcServer) (m : Moment) (q : TokenRequest) (c : AuthCode) (u : User)
      → lookup q.code o.codes ≡ some c
      → after m.now c.expires_at ≡ false
      → check_grant ext o.config q c ≡ proceed u
      → IsGranted ext o m q c
  unfolding check_grant check_client_secret check_pkce check_user
  check_grant-IsGranted o m q c u stored fresh e =
      elim (Option-cases (get_client o.config q.client_id)) [
        | inl nobody ↦ absurd (ground arith)
        | inr (client, registered) ↦ record {
          client = client;
          user = u;
          stored = stored;
          unexpired = ground arith;
          registered = registered;
          authenticated = elim (Bool-cases (client.client_secret == "")) [
            | inl public ↦ inl (ground (arith, eq_iff client.client_secret ""))
            | inr secret ↦
                inr (ground (arith, eq_iff client.client_secret q.client_secret, registered))
          ];
          owned = ground (arith, eq_iff c.client_id q.client_id);
          redirected = ground (arith, eq_iff c.redirect_uri q.redirect_uri);
          proved = elim (Bool-cases (c.code_challenge == "")) [
            | inl unchallenged ↦ inl (ground (arith, eq_iff c.code_challenge ""))
            | inr challenged ↦ inr (ground (arith, registered))
          ];
          known = ground arith;
        }
      ]

  -- What a granted request leaves: the token for the user and the scope of the code, and no code.
  abbrev pub Issues : OidcServer → OidcServer → Moment → TokenRequest → AuthCode → Type 0
  Issues o o' m q c =
      (lookup m.access_token o'.tokens ≡ some (new_token m q c)) × (lookup q.code o'.codes ≡ none)

  redeem-IsGranted :
      (o : OidcServer) (m : Moment) (q : TokenRequest) (found : Option AuthCode)
      → lookup q.code o.codes ≡ found
      → (redeem ext o m q found).1.status_code ≡ 200
      → (c : AuthCode) × IsGranted ext o m q c × Issues o (redeem ext o m q found).0 m q c
  unfolding redeem token_error
  redeem-IsGranted o m q none e ok = absurd (ground arith)
  redeem-IsGranted o m q (some c) e ok = elim (Bool-cases (after m.now c.expires_at)) [
    | inl expired ↦ absurd (ground arith)
    | inr fresh ↦ elim (Checked-cases (check_grant ext o.config q c)) [
      | inl (response, e') ↦
          absurd (ground (arith, e', subst IsError e' (check_grant-IsError ext o.config q c)))
      | inr (u, e') ↦ (
        c,
        check_grant-IsGranted o m q c u e fresh e',
        (
          ground (
            arith,
            e',
            lookup-insert m.access_token m.access_token (new_token m q c) o.tokens,
            eq_refl m.access_token,
          ),
          ground (arith, e', lookup-erase q.code q.code o.codes, eq_refl q.code),
        ),
      )
    ]
  ]

  -- Where the token endpoint answers with 200, the request is for a code that the server holds and
  -- that has not expired; the client is registered and has given its secret if it has one; the code is
  -- for this client and redirect URI; its challenge, if any, is met, and its user is known. The token
  -- is stored for the user and the scope of the code, and the code is removed.
  pub handle_token-IsGranted :
      (o : OidcServer) (m : Moment) (r : HandlerRequest)
      → (handle_token ext o m r).1.status_code ≡ 200
      → (q : TokenRequest) × (c : AuthCode) × (parse_token_request ext r ≡ proceed q)
        × IsGranted ext o m q c
        × Issues o (handle_token ext o m r).0 m q c
  unfolding handle_token
  handle_token-IsGranted o m r ok = elim (Checked-cases (parse_token_request ext r)) [
    | inl (response, e) ↦
        absurd (ground (arith, e, subst (Parsed ext r) e (parse_token_request-Parsed ext r)))
    | inr (q, e) ↦
        let answered : handle_token ext o m r ≡ redeem ext o m q (lookup q.code o.codes) =
          rw (e, handle_token) refl in
        let (c, granted, issued) =
          redeem-IsGranted o m q (lookup q.code o.codes) refl
            (ap (λ a. a.1.status_code) (sym answered) ∙ ok) in
        (q, c, e, granted, rw answered issued)
  ]
