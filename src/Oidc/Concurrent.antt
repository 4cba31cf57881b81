-- ===== src/Oidc/Concurrent.antt =====
-- Two token requests at once. handleToken reads the code under one lock and removes it under another.
use imposter_go.Common.{◌≡◌, false, some, arith, ◌==◌, eq_refl, eq_iff}
use imposter_go.Common.Map.{lookup, insert, lookup-insert}
use imposter_go.Oidc.{OidcServer, OidcExternal, AuthCode, User, Moment, proceed, after}
use imposter_go.Oidc.Token.{TokenRequest, new_token, check_grant, redeem}

-- Where two requests for a code have both read it before either removes it, the code has not expired,
-- its checks pass for both, and their access tokens differ, each is given a token: the code is redeemed
-- twice.
pub redeem-redeem :
    (ext : OidcExternal) (o : OidcServer) (first second : Moment) (p q : TokenRequest)
    (c : AuthCode) (u v : User)
    → lookup p.code o.codes ≡ some c
    → lookup q.code o.codes ≡ some c
    → after first.now c.expires_at ≡ false
    → after second.now c.expires_at ≡ false
    → check_grant ext o.config p c ≡ proceed u
    → check_grant ext o.config q c ≡ proceed v
    → (first.access_token == second.access_token) ≡ false
    → let o' = (redeem ext o first p (lookup p.code o.codes)).0 in
      let o'' = (redeem ext o' second q (lookup q.code o.codes)).0 in
      (lookup first.access_token o''.tokens ≡ some (new_token first p c))
      × (lookup second.access_token o''.tokens ≡ some (new_token second q c))
unfolding redeem
redeem-redeem ext o first second p q c u v found found' fresh fresh' granted granted' distinct =
    rw (found, found', fresh, fresh', granted, granted')
      (
        ground (
          arith,
          lookup-insert second.access_token first.access_token (new_token second q c)
              (insert first.access_token (new_token first p c) o.tokens),
          lookup-insert first.access_token first.access_token (new_token first p c) o.tokens,
          eq_refl first.access_token,
          eq_iff first.access_token second.access_token,
          eq_iff second.access_token first.access_token,
        ),
        ground (
          arith,
          lookup-insert second.access_token second.access_token (new_token second q c)
              (insert first.access_token (new_token first p c) o.tokens),
          eq_refl second.access_token,
        ),
      )
