-- ===== src/Oidc/Registered.antt =====
-- What the server stores rests on registered clients and known users.
use imposter_go.Common.{
  String, ◌≡◌, refl, Option, none, some, ◌==◌, arith, inl, inr, Bool-cases, Option-cases,
}
use imposter_go.Common.Map.{lookup, insert, erase}
use imposter_go.Common.Map.Each.{Each-insert, Each-erase, Each-drop_where, Each-lookup}
use imposter_go.Common.Text.Case.{to_upper}
use imposter_go.Oidc.{
  OidcServer, OidcConfig, OidcExternal, AuthCode, User, Client, HandlerRequest, HandlerResponse,
  Moment, Checked, refused, proceed, Values, after,
}
use imposter_go.Oidc.Logout.{
  check_logout, end_session, hinted, clear_user_state, handle_logout, handle_logout_request,
}
use imposter_go.Oidc.Plugin.{
  TransformRequest, Endpoint, authorize, token, userinfo, logout, jwks, discovery, unknown,
  endpoint, answer, transform_response,
}
use imposter_go.Oidc.Settings.{get_client}
use imposter_go.Oidc.Token.{
  TokenRequest, parse_token_request, check_client_secret, check_grant, redeem, token_response,
  Validated, valid, invalid, new_token, handle_token, validate_access_token,
}
use imposter_go.Oidc.Userinfo.{bearer_token, handle_user_info, answer_userinfo}
use imposter_go.Oidc.Admission.{
  CodeIsAllowed, TokenIsAllowed, IsRegistered, handle_authorize-IsRegistered,
}

module _ (ext : OidcExternal) where
  check_grant-client :
      (config : OidcConfig) (q : TokenRequest) (c : AuthCode) {u : User}
      → check_grant ext config q c ≡ proceed u
      → (client : Client) × (get_client config q.client_id ≡ some client)
  unfolding check_grant check_client_secret
  check_grant-client config q c e = elim (Option-cases (get_client config q.client_id)) [
    | inl unregistered ↦ absurd (ground arith)
    | inr found ↦ found
  ]

  redeem-IsRegistered :
      (o : OidcServer) (m : Moment) (q : TokenRequest) (found : Option AuthCode)
      → lookup q.code o.codes ≡ found
      → IsRegistered o
      → IsRegistered (redeem ext o m q found).0
  unfolding redeem
  redeem-IsRegistered o m q none e h = h
  redeem-IsRegistered o m q (some c) e h = elim (Bool-cases (after m.now c.expires_at)) [
    | inl expired ↦ rw expired (record {
      sessions = h.sessions;
      codes = Each-erase (CodeIsAllowed o.config) q.code o.codes h.codes;
      tokens = h.tokens;
    })
    | inr fresh ↦ rw fresh (granted (check_grant ext o.config q c) refl)
  ]
    where
      granted :
          (checked : Checked User)
          → check_grant ext o.config q c ≡ checked
          → IsRegistered
              (elim checked as (λ _. OidcServer × HandlerResponse) [
                | refused response ↦ (o, response)
                | proceed u ↦ (
                  record o {
                    tokens = insert m.access_token (new_token m q c) o.tokens;
                    codes = erase q.code o.codes;
                  },
                  token_response ext o m q c u,
                )
              ]).0
      granted (refused response) e' = h
      granted (proceed u) e' = record {
        sessions = h.sessions;
        codes = Each-erase (CodeIsAllowed o.config) q.code o.codes h.codes;
        tokens =
            Each-insert (TokenIsAllowed o.config) m.access_token (new_token m q c) o.tokens
              (unfold new_token in
                (
                  (Each-lookup (CodeIsAllowed o.config) q.code o.codes h.codes e).1,
                  check_grant-client o.config q c e',
                ))
              h.tokens;
      }

  handle_token-IsRegistered :
      (o : OidcServer) (m : Moment) (r : HandlerRequest)
      → IsRegistered o
      → IsRegistered (handle_token ext o m r).0
  unfolding handle_token
  handle_token-IsRegistered o m r h = parsed (parse_token_request ext r)
    where
      parsed :
          (p : Checked TokenRequest)
          → IsRegistered
              (elim p as (λ _. OidcServer × HandlerResponse) [
                | refused response ↦ (o, response)
                | proceed q ↦ redeem ext o m q (lookup q.code o.codes)
              ]).0
      parsed (refused response) = h
      parsed (proceed q) = redeem-IsRegistered o m q (lookup q.code o.codes) refl h

  validate_access_token-IsRegistered :
      (o : OidcServer) (m : Moment) (t : String)
      → IsRegistered o
      → IsRegistered (validate_access_token o m t).0
  unfolding validate_access_token
  validate_access_token-IsRegistered o m t h = elim (Option-cases (lookup t o.tokens)) [
    | inl missing ↦ rw (missing, validate_access_token) h
    | inr (a, found) ↦
        rw (found, validate_access_token)
          (elim (Bool-cases (after m.now a.expires_at)) [
            | inl expired ↦ rw expired (record {
              sessions = h.sessions;
              codes = h.codes;
              tokens = Each-erase (TokenIsAllowed o.config) t o.tokens h.tokens;
            })
            | inr fresh ↦ rw fresh h
          ])
  ]

  answer_userinfo-server : (v : OidcServer × Validated) → (answer_userinfo ext v).0 ≡ v.0
  unfolding answer_userinfo
  answer_userinfo-server (o, valid t) = refl
  answer_userinfo-server (o, invalid message) = refl

  handle_user_info-IsRegistered :
      (o : OidcServer) (m : Moment) (r : HandlerRequest)
      → IsRegistered o
      → IsRegistered (handle_user_info ext o m r).0
  unfolding handle_user_info
  handle_user_info-IsRegistered o m r h = bearer (bearer_token ext r)
    where
      bearer :
          (b : Checked String)
          → IsRegistered
              (elim b as (λ _. OidcServer × HandlerResponse) [
                | refused response ↦ (o, response)
                | proceed t ↦ answer_userinfo ext (validate_access_token o m t)
              ]).0
      bearer (refused response) = h
      bearer (proceed t) =
          rw (answer_userinfo-server (validate_access_token o m t))
            (validate_access_token-IsRegistered o m t h)

  clear_user_state-IsRegistered :
      (o : OidcServer) (id : String) → IsRegistered o → IsRegistered (clear_user_state o id)
  unfolding clear_user_state
  clear_user_state-IsRegistered o id h = elim (Bool-cases (id == "")) [
    | inl nobody ↦ rw nobody h
    | inr given ↦ rw given (record {
      sessions = h.sessions;
      codes = Each-drop_where (CodeIsAllowed o.config) (λ c. c.user_id == id) o.codes h.codes;
      tokens = Each-drop_where (TokenIsAllowed o.config) (λ t. t.user_id == id) o.tokens h.tokens;
    })
  ]

  handle_logout_request-IsRegistered :
      (o : OidcServer) (params : Values)
      → IsRegistered o
      → IsRegistered (handle_logout_request ext o params).0
  unfolding handle_logout_request
  handle_logout_request-IsRegistered o params h = checked (check_logout ext o params)
    where
      checked :
          (c : Checked (Unit {0}))
          → IsRegistered
              (elim c as (λ _. OidcServer × HandlerResponse) [
                | refused response ↦ (o, response)
                | proceed _ ↦ (clear_user_state o (hinted ext o params).1, end_session ext params)
              ]).0
      checked (refused response) = h
      checked (proceed _) = clear_user_state-IsRegistered o (hinted ext o params).1 h

  handle_logout-IsRegistered :
      (o : OidcServer) (r : HandlerRequest)
      → IsRegistered o
      → IsRegistered (handle_logout ext o r).0
  unfolding handle_logout
  handle_logout-IsRegistered o r h = elim (Bool-cases (to_upper r.method == "GET")) [
    | inl get ↦ rw get (handle_logout_request-IsRegistered o r.query h)
    | inr other ↦ rw other (elim (Bool-cases (to_upper r.method == "POST")) [
      | inl post ↦ rw post (elim (Option-cases (ext.parse_query r.body)) [
        | inl malformed ↦ rw malformed h
        | inr (form, parsed) ↦ rw parsed (handle_logout_request-IsRegistered o form h)
      ])
      | inr neither ↦ rw neither h
    ])
  ]

  answer-IsRegistered :
      (e : Endpoint) (o : OidcServer) (m : Moment) (r : HandlerRequest)
      → IsRegistered o
      → IsRegistered (answer ext e o m r).0
  unfolding answer
  answer-IsRegistered authorize o m r h = handle_authorize-IsRegistered ext o m r h
  answer-IsRegistered token o m r h = handle_token-IsRegistered o m r h
  answer-IsRegistered userinfo o m r h = handle_user_info-IsRegistered o m r h
  answer-IsRegistered logout o m r h = handle_logout-IsRegistered o r h
  answer-IsRegistered jwks o m r h = h
  answer-IsRegistered discovery o m r h = h
  answer-IsRegistered unknown o m r h = h

  -- Every request keeps this: a session or a code stands for a registered client and one of its
  -- redirect URIs, with a scope that has openid and a challenge in the right form; a code and an access
  -- token stand for users that are configured, and a token for a registered client.
  pub transform_response-IsRegistered :
      (o : OidcServer) (m : Moment) (t : TransformRequest)
      → IsRegistered o
      → IsRegistered (transform_response ext o m t).0
  unfolding transform_response
  transform_response-IsRegistered o m t h = elim (Bool-cases t.handled) [
    | inl piped ↦ rw piped h
    | inr ours ↦
        rw ours (answer-IsRegistered (endpoint o.path_prefix t.request.path) o m t.request h)
  ]
