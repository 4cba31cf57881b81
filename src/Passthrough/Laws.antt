-- ===== src/Passthrough/Laws.antt =====
-- What is not forwarded.
use imposter_go.Common.{
  String, ◌≡◌, refl, ap, sym, ◌∙◌, true, false, some, List, [], ◌∷◌, ◌++◌, ◌==◌, if◌then◌else◌,
  get_or, arith, eq_iff, Bool-cases, inl, inr,
}
use imposter_go.Common.Lists.{any}
use imposter_go.Common.Map.{Map, lookup, insert, lookup-insert}
use imposter_go.Common.Text.Case.{canonical_header_key}
use imposter_go.Common.Text.{join}
use imposter_go.Exchange.{ResponseState}
use imposter_go.Passthrough.{
  hop_by_hop_headers, is_hop_by_hop, add_values, copy_request_headers, copy_response_headers,
}

-- No hop-by-hop header of an upstream's response reaches the response state: such a header is what
-- it was before.
pub copy_response_headers-hop_by_hop :
    (src : Map (List String)) (rs : ResponseState) (name : String)
    → is_hop_by_hop name ≡ true
    → lookup name (copy_response_headers src rs).headers ≡ lookup name rs.headers
unfolding copy_response_headers
copy_response_headers-hop_by_hop [] rs name h = refl
copy_response_headers-hop_by_hop ((key, values) ∷ src) rs name h =
    let next = record rs { headers = insert key (join values ", ") rs.headers } in
    ground (
      arith,
      copy_response_headers-hop_by_hop src rs name h,
      copy_response_headers-hop_by_hop src next name h,
      lookup-insert key name (join values ", ") rs.headers,
      eq_iff key name,
    )

add_values-other :
    (key name : String) (values : List String) (dst : Map (List String))
    → (canonical_header_key key == name) ≡ false
    → lookup name (add_values key values dst) ≡ lookup name dst
unfolding add_values
add_values-other key name [] dst h = refl
add_values-other key name (v ∷ values) dst h =
    let own = canonical_header_key key in
    let next = insert own (get_or (lookup own dst) [] ++ (v ∷ [])) dst in
    add_values-other key name values next h
    ∙ lookup-insert own name (get_or (lookup own dst) [] ++ (v ∷ [])) dst
    ∙ ap (λ b. if b then some (get_or (lookup own dst) [] ++ (v ∷ [])) else lookup name dst) h

distinct :
    (own name : String) (headers : List String)
    → any (λ h. h == name) headers ≡ true
    → any (λ h. h == own) headers ≡ false
    → (own == name) ≡ false
distinct own name headers listed unlisted = elim (Bool-cases (own == name)) [
  | inr other ↦ other
  | inl equal ↦ ground (
    arith,
    listed,
    sym (ap (λ n. any (λ h. h == n) headers) ((eq_iff own name).0 equal)) ∙ unlisted,
  )
]

unlisted :
    (key : String)
    → is_hop_by_hop key ≡ false
    → any (λ h. h == canonical_header_key key) hop_by_hop_headers ≡ false
unfolding is_hop_by_hop
unlisted key h = h

-- No hop-by-hop header of a request is forwarded: the headers of the request to the upstream have
-- under such a name what they had before.
pub copy_request_headers-hop_by_hop :
    (src dst : Map (List String)) (name : String)
    → any (λ h. h == name) hop_by_hop_headers ≡ true
    → lookup name (copy_request_headers src dst) ≡ lookup name dst
unfolding copy_request_headers
copy_request_headers-hop_by_hop [] dst name listed = refl
copy_request_headers-hop_by_hop ((key, values) ∷ src) dst name listed =
    elim (Bool-cases (is_hop_by_hop key)) [
      | inl hop ↦ ground (arith, hop, copy_request_headers-hop_by_hop src dst name listed)
      | inr passed ↦ ground (
        arith,
        passed,
        copy_request_headers-hop_by_hop src (add_values key values dst) name listed,
        add_values-other key name values dst (
            distinct (canonical_header_key key) name hop_by_hop_headers listed
              (unlisted key passed)),
      )
    ]
