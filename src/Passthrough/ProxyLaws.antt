-- ===== src/Passthrough/ProxyLaws.antt =====
-- What goes to an upstream and what comes back.
use imposter_go.Common.{
  String, ◌≡◌, refl, sym, ap, ◌∙◌, Bool, true, false, none, some, List, [], ◌∷◌, ◌==◌,
  if◌then◌else◌, arith, eq_iff, Bool-cases, Option-cases, inl, inr, ◌⊎◌,
}
use imposter_go.Common.Lists.{any}
use imposter_go.Common.Text.{join}
use imposter_go.Common.Map.{Map, lookup, insert, lookup-insert}
use imposter_go.Common.Maybe.{Returns-ite, ◌>>=◌, Returns, Returns->>=, Returns-self, Returns-some}
use imposter_go.Config.{Upstream}
use imposter_go.Exchange.{Request, ResponseState}
use imposter_go.Exchange.Context.{Exchange}
use imposter_go.Passthrough.{
  hop_by_hop_headers, is_hop_by_hop, copy_request_headers, copy_response_headers,
}
use imposter_go.Passthrough.Laws.{copy_request_headers-hop_by_hop, copy_response_headers-hop_by_hop}
use imposter_go.Passthrough.Proxy.{
  Origin, OutRequest, InResponse, Internet, join_url, add_forwarded_for, add_forwarded_headers,
  client_ip, forwarded_headers_enabled, upstream_request, received, proxy,
}

-- A request to an upstream: that of the client without the hop-by-hop headers.
abbrev pub Forwards : Request → OutRequest → Type 0
Forwards src out =
    (out.method ≡ src.method)
    × (out.body ≡ src.body)
    × ((name : String)
        → any (λ h. h == name) hop_by_hop_headers ≡ true
        → lookup name out.headers ≡ none)

-- A response state with an upstream's response in place of the status and the body.
abbrev pub Relays : InResponse → ResponseState → ResponseState → Type 0
Relays r rs rs' =
    (rs'.status_code ≡ r.status_code)
    × (rs'.body ≡ some r.body)
    × ((name : String)
        → is_hop_by_hop name ≡ true
        → lookup name rs'.headers ≡ lookup name rs.headers)

-- Setting a header that is not a hop-by-hop header.
lookup-set :
    (key v name : String) (dst : Map (List String))
    → any (λ h. h == name) hop_by_hop_headers ≡ true
    → any (λ h. h == key) hop_by_hop_headers ≡ false
    → lookup name (insert key (v ∷ []) dst) ≡ lookup name dst
lookup-set key v name dst listed unlisted = elim (Bool-cases (key == name)) [
  | inl equal ↦ absurd (
      differ (
        sym (ap (λ n. any (λ h. h == n) hop_by_hop_headers) ((eq_iff key name).0 equal))
        ∙ unlisted))
  | inr other ↦
      lookup-insert key name (v ∷ []) dst
      ∙ ap (λ b. if b then some (v ∷ []) else lookup name dst) other
]
  where
    differ : any (λ h. h == name) hop_by_hop_headers ≡ false → ⊥
    differ h = ground (arith, listed, h)

module _ (net : Internet) where
  add_forwarded_for-hop_by_hop :
      (src : Request) (ip name : String) (dst : Map (List String))
      → any (λ h. h == name) hop_by_hop_headers ≡ true
      → lookup name (add_forwarded_for net src ip dst) ≡ lookup name dst
  unfolding add_forwarded_for
  add_forwarded_for-hop_by_hop src ip name dst listed = elim (Bool-cases (ip == "")) [
    | inl missing ↦ rw missing refl
    | inr known ↦ rw known (lookup-set "X-Forwarded-For" _ name dst listed refl)
  ]

  add_forwarded_headers-hop_by_hop :
      (src : Request) (o : Origin) (name : String) (dst : Map (List String))
      → any (λ h. h == name) hop_by_hop_headers ≡ true
      → lookup name (add_forwarded_headers net src o dst) ≡ lookup name dst
  unfolding add_forwarded_headers
  add_forwarded_headers-hop_by_hop src o name dst listed =
      let with_for = add_forwarded_for net src (client_ip net o.remote_addr) dst in
      lookup-set "Via" "1.1 imposter" name _ listed refl
      ∙ lookup-set "X-Forwarded-Proto" _ name _ listed refl
      ∙ hosted (o.host == "") with_for
      ∙ add_forwarded_for-hop_by_hop src (client_ip net o.remote_addr) name dst listed
    where
      hosted :
          (b : Bool) (m : Map (List String))
          → lookup name (if b then m else insert "X-Forwarded-Host" (o.host ∷ []) m) ≡ lookup name m
      hosted true m = refl
      hosted false m = lookup-set "X-Forwarded-Host" o.host name m listed refl

  copy_response_headers-status_code :
      (src : Map (List String)) (rs : ResponseState)
      → (copy_response_headers src rs).status_code ≡ rs.status_code
  unfolding copy_response_headers
  copy_response_headers-status_code [] rs = refl
  copy_response_headers-status_code ((key, values) ∷ src) rs =
      let next = record rs { headers = insert key (join values ", ") rs.headers } in
      ground (
        arith,
        copy_response_headers-status_code src rs,
        copy_response_headers-status_code src next,
      )

  received-Relays : (r : InResponse) (rs : ResponseState) → Relays r rs (received net r rs)
  received-Relays r rs = (
    copy_response_headers-status_code r.headers (record rs { status_code = r.status_code }),
    refl,
    λ name hop.
        copy_response_headers-hop_by_hop r.headers (record rs { status_code = r.status_code }) name
          hop,
  )

  headers_forwarded :
      (b : Bool) (src : Request) (o : Origin) (name : String)
      → any (λ h. h == name) hop_by_hop_headers ≡ true
      → lookup name (
          if b
          then add_forwarded_headers net src o (copy_request_headers src.headers [])
          else copy_request_headers src.headers [])
        ≡ none
  unfolding lookup
  headers_forwarded true src o name listed =
      add_forwarded_headers-hop_by_hop src o name (copy_request_headers src.headers []) listed
      ∙ copy_request_headers-hop_by_hop src.headers [] name listed
  headers_forwarded false src o name listed =
      copy_request_headers-hop_by_hop src.headers [] name listed

  upstream_request-Forwards :
      (src : Request) (o : Origin) (u : Upstream)
      → Returns (Forwards src) (upstream_request net src o u)
  unfolding upstream_request
  upstream_request-Forwards src o u =
      let joined = join_url net u.url src.path o.raw_query in
      Returns->>= (λ url. joined ≡ some url) (Forwards src) joined _ (Returns-self joined)
        (λ url e.
          Returns-ite (Forwards src) (net.request_is_valid src.method url) (some _) none
            (
              refl,
              refl,
              λ name listed. headers_forwarded (forwarded_headers_enabled net) src o name listed,
            )
            tt)

  -- A forwarding fails exactly where no request can be made or none is answered, and leaves the exchange
  -- as it is then; otherwise it sends the method and the body of the request without any hop-by-hop header, and has the status and the body of the upstream's response
  -- and none of its hop-by-hop headers.
  pub proxy-Relays :
      (o : Origin) (e : Exchange) (u : Upstream)
      → (((upstream_request net e.request o u >>= net.exchange_with) ≡ none)
          × (proxy net o e u ≡ (e, true)))
        ⊎ ((out : OutRequest) × (r : InResponse) × (upstream_request net e.request o u ≡ some out)
            × (net.exchange_with out ≡ some r)
            × Forwards e.request out
            × ((proxy net o e u).1 ≡ false)
            × Relays r e.response_state (proxy net o e u).0.response_state)
  unfolding proxy
  proxy-Relays o e u = elim (Option-cases (upstream_request net e.request o u)) [
    | inl unmade ↦ inl (rw unmade refl, rw (proxy, unmade) refl)
    | inr (out, made) ↦ elim (Option-cases (net.exchange_with out)) [
      | inl unanswered ↦ inl (rw (made, unanswered) refl, rw (proxy, made, unanswered) refl)
      | inr (r, answered) ↦ inr (
        out,
        r,
        made,
        answered,
        Returns-some (Forwards e.request) (upstream_request-Forwards e.request o u) made,
        rw (proxy, made, answered) refl,
        rw (proxy, made, answered) (received-Relays r e.response_state),
      )
    ]
  ]
