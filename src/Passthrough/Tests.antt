-- ===== src/Passthrough/Tests.antt =====
-- Headers that are forwarded, and one that is not.
use imposter_go.Common.{String, ◌≡◌, ◌⊎◌, refl, true, false, some, none, List, [], ◌∷◌}
use imposter_go.Common.Map.{Map}
use imposter_go.Common.Text.{has_prefix, trim_suffix}
use imposter_go.Common.Text.Case.{canonical_header_key}
use imposter_go.Common.Maybe.{◌>>=◌}
use imposter_go.Common.Int.{pos}
use imposter_go.Config.{Upstream}
use imposter_go.Passthrough.{is_hop_by_hop, join_paths}
use imposter_go.Passthrough.Proxy.{
  OutRequest, InResponse, Origin, Internet, upstream_request, proxy,
}
use imposter_go.Passthrough.ProxyLaws.{Forwards, Relays, proxy-Relays}
use imposter_go.Response.Tests.{exchange}

abbrev two_headers : Map (List String)
two_headers = ("Connection", "close" ∷ []) ∷ ("X-Id", "7" ∷ []) ∷ []

hop : is_hop_by_hop "Connection" ≡ true
unfolding is_hop_by_hop canonical_header_key
hop = refl

joined : join_paths "/v1/" "/users" ≡ "/v1/users"
unfolding join_paths has_prefix trim_suffix
joined = refl

abbrev net : Internet
net = record {
  url_parse =
      λ s. some (record { scheme = "http"; host = s; path = "/v1"; raw_query = ""; other = "" });
  url_string = λ u. u.host;
  request_is_valid = λ method url. true;
  exchange_with =
      λ out. some (record { status_code = pos 200; headers = two_headers; body = out.body });
  split_host_port = λ s. some s;
  forwarded_headers = "true";
}

abbrev origin : Origin
origin = record { raw_query = "a=1"; remote_addr = "10.0.0.1:80"; host = "localhost"; tls = true }

abbrev backend : Upstream
backend = record { url = "http://backend/v1" }

proxy-Relays_example :
    (((upstream_request net exchange.request origin backend >>= net.exchange_with) ≡ none)
      × (proxy net origin exchange backend ≡ (exchange, true)))
    ⊎ ((out : OutRequest) × (r : InResponse) × (upstream_request net exchange.request origin backend
          ≡ some out)
        × (net.exchange_with out ≡ some r)
        × Forwards exchange.request out
        × ((proxy net origin exchange backend).1 ≡ false)
        × Relays r exchange.response_state (proxy net origin exchange backend).0.response_state)
proxy-Relays_example = proxy-Relays net origin exchange backend
