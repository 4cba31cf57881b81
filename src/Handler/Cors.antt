-- ===== src/Handler/Cors.antt =====
-- internal/handler/cors.go and GetAllowedOrigins of internal/config/model.go.
use imposter_go.Common.{
  String, Bool, true, false, not, ◌&&◌, Option, none, some, List, [], ◌∷◌, ◌==◌, if◌then◌else◌,
}
use imposter_go.Common.Int.{ℤ, pos, ltb_ℤ}
use imposter_go.Common.Lists.{any, is_empty}
use imposter_go.Common.Text.{join}
use imposter_go.Common.Value.{Value, string}
use imposter_go.Config.{CorsConfig, AllowOrigins, unset, single, strings, values}
use imposter_go.Exchange.{Request, header_value}
use imposter_go.Exchange.Write.{ResponseWriter, set_header, write_header}

-- The texts of a list of values, "" for a value that is no text.
unfoldable pub origin_of : Value → String
origin_of (string s) = s
origin_of _ = ""

unfoldable pub origins_of : List Value → List String
origins_of [] = []
origins_of (v ∷ vs) = origin_of v ∷ origins_of vs

-- GetAllowedOrigins
unfoldable pub get_allowed_origins : AllowOrigins → List String
get_allowed_origins unset = []
get_allowed_origins (single s) = s ∷ []
get_allowed_origins (strings ss) = ss
get_allowed_origins (values vs) = origins_of vs

-- containsString
unfoldable pub contains_string : List String → String → Bool
contains_string slice str = any (λ s. s == str) slice

unfoldable pub add_origin : List String → String → ResponseWriter → ResponseWriter
add_origin allowed origin w =
    if contains_string allowed "all"
    then set_header "Vary" "Origin" (set_header "Access-Control-Allow-Origin" origin w)
    else if contains_string allowed "*"
    then set_header "Access-Control-Allow-Origin" "*" w
    else if not (is_empty allowed) && contains_string allowed origin
    then set_header "Vary" "Origin" (set_header "Access-Control-Allow-Origin" origin w)
    else w

-- addCORSHeaders
unfoldable pub add_cors_headers : Request → CorsConfig → ResponseWriter → ResponseWriter
add_cors_headers r c w =
    let w' = add_origin (get_allowed_origins c.allow_origins) (header_value r "Origin") w in
    if c.allow_credentials then set_header "Access-Control-Allow-Credentials" "true" w' else w'

unfoldable pub add_preflight_methods : CorsConfig → ResponseWriter → ResponseWriter
add_preflight_methods c w =
    set_header "Access-Control-Allow-Methods"
      (if is_empty c.allow_methods
        then "GET, POST, PUT, DELETE, PATCH, OPTIONS"
        else join c.allow_methods ", ")
      w

unfoldable pub add_preflight_headers : Request → CorsConfig → ResponseWriter → ResponseWriter
add_preflight_headers r c w =
    let requested = header_value r "Access-Control-Request-Headers" in
    if not (is_empty c.allow_headers)
    then set_header "Access-Control-Allow-Headers" (join c.allow_headers ", ") w
    else if requested == ""
    then w
    else set_header "Access-Control-Allow-Headers" requested w

module _ (itoa : ℤ → String) where
  -- handlePreflightRequest; `itoa` is strconv.Itoa.
  unfoldable pub handle_preflight_request : Request → CorsConfig → ResponseWriter → ResponseWriter
  handle_preflight_request r c w = write_header (pos 204) (
      set_header "Access-Control-Max-Age"
        (itoa (if ltb_ℤ (pos 0) c.max_age then c.max_age else pos 86400))
        (add_preflight_headers r c (add_preflight_methods c (add_cors_headers r c w))))

  -- handleCORS: whether the request is handled.
  unfoldable pub handle_cors : Request → Option CorsConfig → ResponseWriter → Bool × ResponseWriter
  handle_cors r none w = (false, w)
  handle_cors r (some c) w =
      if header_value r "Origin" == ""
      then if r.method == "OPTIONS" then (true, write_header (pos 400) w) else (false, w)
      else if r.method == "OPTIONS"
      then (true, handle_preflight_request r c w)
      else (false, add_cors_headers r c w)
