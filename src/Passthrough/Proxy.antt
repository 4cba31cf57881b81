-- ===== src/Passthrough/Proxy.antt =====
-- internal/passthrough/passthrough.go: the request to an upstream and what its response leaves, over
-- JoinURL of url.go. What is called is given as an `Internet`.
use imposter_go.Common.{
  String, Bool, true, false, Option, none, some, List, [], ◌∷◌, ◌==◌, ◌||◌, if◌then◌else◌, get_or,
}
use imposter_go.Common.Int.{ℤ}
use imposter_go.Common.Map.{Map, insert}
use imposter_go.Common.Maybe.{◌>>=◌}
use imposter_go.Common.Text.{concat}
use imposter_go.Common.Text.Case.{equal_fold}
use imposter_go.Config.{Upstream}
use imposter_go.Exchange.{Request, ResponseState, header_value}
use imposter_go.Exchange.Context.{Exchange, on_state}
use imposter_go.Passthrough.{join_paths, copy_request_headers, copy_response_headers}

-- The parts of a url.URL that JoinURL reads and sets, and what else it keeps.
pub record Url : Type 0 where
  pub scheme : String
  pub host : String
  pub path : String
  pub raw_query : String
  pub other : String

pub record OutRequest : Type 0 where
  pub method : String
  pub url : String
  pub headers : Map (List String)
  pub body : String

pub record InResponse : Type 0 where
  pub status_code : ℤ
  pub headers : Map (List String)
  pub body : String

-- What a request is besides its `Request`.
pub record Origin : Type 0 where
  pub raw_query : String
  pub remote_addr : String
  pub host : String
  pub tls : Bool

-- url.Parse and URL.String, whether http.NewRequest takes a method and a URL, Client.Do with the body of
-- its response, the host of net.SplitHostPort, and IMPOSTER_PASSTHROUGH_FORWARDED_HEADERS. None is an
-- error.
pub record Internet : Type 0 where
  pub url_parse : String → Option Url
  pub url_string : Url → String
  pub request_is_valid : String → String → Bool
  pub exchange_with : OutRequest → Option InResponse
  pub split_host_port : String → Option String
  pub forwarded_headers : String

module _ (net : Internet) where
  -- JoinURL
  unfoldable pub join_url : String → String → String → Option String
  join_url base request_path raw_query = do
    u ← net.url_parse base
    if u.scheme == "" || u.host == ""
        then none
        else some (
            net.url_string
              (record u { path = join_paths u.path request_path; raw_query = raw_query }))

  -- clientIP
  unfoldable pub client_ip : String → String
  client_ip remote_addr =
      if remote_addr == "" then "" else get_or (net.split_host_port remote_addr) remote_addr

  unfoldable pub forwarded_headers_enabled : Bool
  forwarded_headers_enabled = equal_fold net.forwarded_headers "true"

  -- dst.Header.Set(key, v), for a key in its canonical form
  abbrev header_set : String → String → Map (List String) → Map (List String)
  header_set key v dst = insert key (v ∷ []) dst

  unfoldable pub add_forwarded_for : Request → String → Map (List String) → Map (List String)
  add_forwarded_for src ip dst =
      let prior = header_value src "X-Forwarded-For" in
      if ip == ""
      then dst
      else header_set "X-Forwarded-For" (if prior == "" then ip else concat prior (concat ", " ip))
          dst

  -- addForwardedHeaders
  unfoldable pub add_forwarded_headers : Request → Origin → Map (List String) → Map (List String)
  add_forwarded_headers src o dst =
      let with_for = add_forwarded_for src (client_ip o.remote_addr) dst in
      let with_host =
        if o.host == "" then with_for else header_set "X-Forwarded-Host" o.host with_for in
      header_set "Via" "1.1 imposter"
        (header_set "X-Forwarded-Proto" (if o.tls then "https" else "http") with_host)

  -- The request that Proxy makes.
  unfoldable pub upstream_request : Request → Origin → Upstream → Option OutRequest
  upstream_request src o upstream = do
    url ← join_url upstream.url src.path o.raw_query
    let copied = copy_request_headers src.headers [] in
        if net.request_is_valid src.method url
        then some (record {
          method = src.method;
          url = url;
          headers =
              if forwarded_headers_enabled then add_forwarded_headers src o copied else copied;
          body = src.body;
        })
        else none

  abbrev pub received : InResponse → ResponseState → ResponseState
  received r rs =
      record (copy_response_headers r.headers (record rs { status_code = r.status_code })) {
        body = some r.body;
      }

  -- Proxy, and whether it returns an error.
  unfoldable pub proxy : Origin → Exchange → Upstream → Exchange × Bool
  proxy o e upstream = elim (upstream_request e.request o upstream >>= net.exchange_with) [
    | none ↦ (e, true)
    | some r ↦ (on_state (received r) e, false)
  ]
