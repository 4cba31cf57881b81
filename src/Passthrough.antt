-- ===== src/Passthrough.antt =====
-- internal/passthrough: the headers that are forwarded in either direction, and joinPaths of url.go.
pub mod Laws
pub mod Proxy
pub mod ProxyLaws
mod Tests
use imposter_go.Common.{
  String, Bool, true, false, not, ◌||◌, Option, none, some, List, [], ◌∷◌, ◌++◌, ◌==◌,
  if◌then◌else◌, get_or,
}
use imposter_go.Common.Lists.{any}
use imposter_go.Common.Map.{Map, lookup, insert}
use imposter_go.Common.Text.{concat, has_prefix, trim_suffix, join}
use imposter_go.Common.Text.Case.{canonical_header_key}
use imposter_go.Exchange.{ResponseState}

-- HopByHopHeaders
abbrev pub hop_by_hop_headers : List String
hop_by_hop_headers =
    "Accept-Encoding" ∷ "Host" ∷ "Connection" ∷ "Keep-Alive" ∷ "Proxy-Authenticate"
    ∷ "Proxy-Authorization" ∷ "Te" ∷ "Trailers" ∷ "Transfer-Encoding" ∷ "Upgrade" ∷ []

-- isHopByHop
unfoldable pub is_hop_by_hop : String → Bool
is_hop_by_hop header = any (λ h. h == canonical_header_key header) hop_by_hop_headers

-- dst.Header.Add(key, v), for each value
unfoldable pub add_values : String → List String → Map (List String) → Map (List String)
add_values key [] dst = dst
add_values key (v ∷ values) dst =
    let name = canonical_header_key key in
    add_values key values (insert name (get_or (lookup name dst) [] ++ (v ∷ [])) dst)

-- copyRequestHeaders
unfoldable pub copy_request_headers : Map (List String) → Map (List String) → Map (List String)
copy_request_headers [] dst = dst
copy_request_headers ((key, values) ∷ src) dst =
    copy_request_headers src (if is_hop_by_hop key then dst else add_values key values dst)

-- copyResponseHeaders
unfoldable pub copy_response_headers : Map (List String) → ResponseState → ResponseState
copy_response_headers [] rs = rs
copy_response_headers ((key, values) ∷ src) rs = copy_response_headers src (
    if is_hop_by_hop key
    then rs
    else record rs { headers = insert key (join values ", ") rs.headers })

-- joinPaths
unfoldable pub join_paths : String → String → String
join_paths base append_path =
    if append_path == ""
    then base
    else if base == "" || base == "/"
    then append_path
    else concat (trim_suffix base "/")
        (if has_prefix append_path "/" then append_path else concat "/" append_path)
