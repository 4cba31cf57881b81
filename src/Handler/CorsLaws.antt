-- ===== src/Handler/CorsLaws.antt =====
-- Which origins are allowed, and which requests CORS answers.
use imposter_go.Common.{
  false, String, ◌≡◌, refl, Option, none, some, List, [], ◌∷◌, ◌==◌, if◌then◌else◌, arith, ◌∙◌,
}
use imposter_go.Common.Int.{ℤ, pos, ltb_ℤ}
use imposter_go.Common.Lists.{any}
use imposter_go.Common.Map.{Map, lookup, lookup-insert}
use imposter_go.Common.Text.Case.{canonical_header_key}
use imposter_go.Config.{CorsConfig}
use imposter_go.Exchange.{Request, header_value}
use imposter_go.Exchange.Write.{ResponseWriter, set_header, is_informational, write_header}
use imposter_go.Handler.Cors.{
  get_allowed_origins, contains_string, add_origin, add_cors_headers, add_preflight_methods,
  add_preflight_headers, handle_preflight_request, handle_cors,
}

set_header-sent :
    (name value : String) (w : ResponseWriter) → (set_header name value w).sent ≡ w.sent
unfolding set_header
set_header-sent name value w = refl

pub add_cors_headers-sent :
    (r : Request) (c : CorsConfig) (w : ResponseWriter) → (add_cors_headers r c w).sent ≡ w.sent
unfolding add_cors_headers add_origin set_header
add_cors_headers-sent r c w = ground arith

abbrev allow_origin : String
allow_origin = "Access-Control-Allow-Origin"

lookup-set_header :
    (key name value : String) (w : ResponseWriter)
    → lookup key (set_header name value w).headers
      ≡ (if canonical_header_key name == key then some (value ∷ []) else lookup key w.headers)
unfolding set_header
lookup-set_header key name value w =
    ground (arith, lookup-insert (canonical_header_key name) key (value ∷ []) w.headers)

own :
    (value : String) (w : ResponseWriter)
    → lookup allow_origin (set_header allow_origin value w).headers ≡ some (value ∷ [])
unfolding canonical_header_key
own value w = lookup-set_header allow_origin allow_origin value w

vary :
    (value : String) (w : ResponseWriter)
    → lookup allow_origin (set_header "Vary" value w).headers ≡ lookup allow_origin w.headers
unfolding canonical_header_key
vary value w = lookup-set_header allow_origin "Vary" value w

credentials :
    (value : String) (w : ResponseWriter)
    → lookup allow_origin (set_header "Access-Control-Allow-Credentials" value w).headers
      ≡ lookup allow_origin w.headers
unfolding canonical_header_key
credentials value w = lookup-set_header allow_origin "Access-Control-Allow-Credentials" value w

-- What a client is told of its origin.
abbrev pub allowed_origin : List String → String → Option (List String)
allowed_origin allowed origin =
    if any (λ s. s == "all") allowed
    then some (origin ∷ [])
    else if any (λ s. s == "*") allowed
    then some ("*" ∷ [])
    else if any (λ s. s == origin) allowed
    then some (origin ∷ [])
    else none

-- The status that has been sent.
abbrev pub status_of : Option (ℤ × Map (List String)) → Option ℤ
status_of none = none
status_of (some (code, headers)) = some code

abbrev pub or_else : {A : Type 0} → Option A → Option A → Option A
or_else none o = o
or_else (some a) o = some a

add_origin-allowed :
    (allowed : List String) (origin : String) (w : ResponseWriter)
    → lookup allow_origin (add_origin allowed origin w).headers
      ≡ or_else (allowed_origin allowed origin) (lookup allow_origin w.headers)
unfolding add_origin contains_string
add_origin-allowed [] origin w = refl
add_origin-allowed (a ∷ as') origin w =
    ground (arith, own origin w, own "*" w, vary "Origin" (set_header allow_origin origin w))

-- The header that allows an origin names the origin of the request where all are allowed or this one
-- is listed, "*" where that is listed, and is left as it was otherwise.
add_cors_headers-origin :
    (r : Request) (c : CorsConfig) (w : ResponseWriter)
    → lookup "Access-Control-Allow-Origin" (add_cors_headers r c w).headers
      ≡ or_else
          (allowed_origin (get_allowed_origins c.allow_origins) (header_value r "Origin"))
          (lookup "Access-Control-Allow-Origin" w.headers)
unfolding add_cors_headers
add_cors_headers-origin r c w =
    let origin = header_value r "Origin" in
    let allowed = get_allowed_origins c.allow_origins in
    ground
      (arith, add_origin-allowed allowed origin w, credentials "true" (add_origin allowed origin w))

add_preflight-sent :
    (r : Request) (c : CorsConfig) (w : ResponseWriter)
    → (add_preflight_headers r c (add_preflight_methods c w)).sent ≡ w.sent
unfolding add_preflight_headers add_preflight_methods set_header
add_preflight-sent r c w = ground arith

write_header-status :
    (code : ℤ) (w : ResponseWriter)
    → w.sent ≡ none
    → is_informational code ≡ false
    → status_of (write_header code w).sent ≡ some code
unfolding write_header
write_header-status code w fresh final = ground (arith, fresh, final)

module _ (itoa : ℤ → String) where
  preflight-status :
      (r : Request) (c : CorsConfig) (w : ResponseWriter)
      → w.sent ≡ none
      → status_of (handle_preflight_request itoa r c w).sent ≡ some (pos 204)
  unfolding handle_preflight_request is_informational
  preflight-status r c w fresh =
      let w' = add_preflight_headers r c (add_preflight_methods c (add_cors_headers r c w)) in
      let age = itoa (if ltb_ℤ (pos 0) c.max_age then c.max_age else pos 86400) in
      write_header-status (pos 204) (set_header "Access-Control-Max-Age" age w')
        (set_header-sent "Access-Control-Max-Age" age w'
          ∙ add_preflight-sent r c (add_cors_headers r c w)
          ∙ add_cors_headers-sent r c w
          ∙ fresh)
        refl

  -- Exactly the preflight requests are answered: with 400 where they name no origin, else with 204.
  -- Nothing is sent for any other request.
  handle_cors-sent :
      (r : Request) (c : CorsConfig) (w : ResponseWriter)
      → w.sent ≡ none
      → ((handle_cors itoa r (some c) w).0 ≡ (r.method == "OPTIONS"))
        × (status_of (handle_cors itoa r (some c) w).1.sent ≡ (
            if r.method == "OPTIONS"
            then some (if header_value r "Origin" == "" then pos 400 else pos 204)
            else none))
  unfolding handle_cors is_informational
  handle_cors-sent r c w fresh = ground (
    arith,
    fresh,
    write_header-status (pos 400) w fresh refl,
    preflight-status r c w fresh,
    add_cors_headers-sent r c w,
  )
