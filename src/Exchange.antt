-- ===== src/Exchange.antt =====
-- internal/exchange: the request, and the state of the response while it is built
-- (exchange.go, state.go).
pub mod Context
pub mod Write
pub mod Laws
mod Tests
use imposter_go.Common.{
  ℕ, String, Bool, true, false, Option, none, some, List, [], ◌∷◌, ◌++◌, ◌==◌, get_or,
  if◌then◌else◌,
}
use imposter_go.Common.Int.{ℤ, pos}
use imposter_go.Common.Map.{Map, lookup, insert}
use imposter_go.Common.Text.Case.{canonical_header_key}
use imposter_go.Config.{Delay, BaseResource, no_delay}

-- The parts of an http.Request that the program reads: the query and the form are parsed by
-- net/http, and `form` is none where ParseForm fails.
pub record Request : Type 0 where
  pub method : String
  pub path : String
  pub headers : Map (List String)
  pub query : Map (List String)
  pub form : Option (Map (List String))
  pub body : String

-- The first value of a key, or "".
unfoldable pub first_value : String → Map (List String) → String
first_value key m = elim (lookup key m) [ none ↦ "" | some [] ↦ "" | some (v ∷ vs) ↦ v ]

-- r.Header.Get(name), r.URL.Query().Get(key), r.FormValue(key)
unfoldable pub header_value : Request → String → String
unfolding first_value
header_value r name = first_value (canonical_header_key name) r.headers

unfoldable pub query_value : Request → String → String
unfolding first_value
query_value r key = first_value key r.query

unfoldable pub form_value : Request → String → String
unfolding first_value
form_value r key = elim r.form [ none ↦ "" | some values ↦ first_value key values ]

-- A cleanup function: the only ones that are registered give back a place of the rate limiter.
pub data Cleanup : Type 0 where
  decrement : String → Cleanup

pub record ResponseState : Type 0 where
  pub status_code : ℤ
  pub headers : Map String
  pub trailers : Map String
  pub body : Option String
  pub stopped : Bool
  pub handled : Bool
  pub hijacked : Bool
  pub resource : Option BaseResource
  pub delay : Delay
  pub fail : String
  pub file : String
  pub cleanup_functions : List Cleanup
  pub status_code_set : Bool
  pub body_set : Bool
  pub explicit_headers : Map Bool

-- response.NewResponseState
abbrev pub new_response_state : ResponseState
new_response_state = record {
  status_code = pos 200;
  headers = [];
  trailers = [];
  body = none;
  stopped = false;
  handled = false;
  hijacked = false;
  resource = none;
  delay = no_delay;
  fail = "";
  file = "";
  cleanup_functions = [];
  status_code_set = false;
  body_set = false;
  explicit_headers = [];
}

-- The methods of ResponseState.
unfoldable pub handled_with_resource : BaseResource → ResponseState → ResponseState
handled_with_resource resource rs = record rs { handled = true; resource = some resource }

unfoldable pub set_status_code : ℤ → ResponseState → ResponseState
set_status_code code rs = record rs { status_code = code; status_code_set = true }

unfoldable pub set_body : String → ResponseState → ResponseState
set_body body rs = record rs { body = some body; body_set = true }

unfoldable pub set_header : String → String → ResponseState → ResponseState
set_header name value rs = record rs {
  headers = insert name value rs.headers;
  explicit_headers = insert (canonical_header_key name) true rs.explicit_headers;
}

unfoldable pub is_header_explicit : ResponseState → String → Bool
is_header_explicit rs name = get_or (lookup (canonical_header_key name) rs.explicit_headers) false

unfoldable pub clear_explicit_flags : ResponseState → ResponseState
clear_explicit_flags rs = record rs {
  status_code_set = false;
  body_set = false;
  explicit_headers = [];
}
