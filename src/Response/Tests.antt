-- ===== src/Response/Tests.antt =====
-- Responses to a request whose script has set parts of the response.
use imposter_go.Common.{
  String, ◌≡◌, refl, false, true, not, ◌&&◌, Option, none, some, [], ◌∷◌, is_none, ◌==◌,
  if◌then◌else◌,
}
use imposter_go.Common.Int.{pos, ltb_ℤ}
use imposter_go.Common.Map.{lookup}
use imposter_go.Common.Text.Case.{canonical_header_key}
use imposter_go.Config.{Response, RequestMatcher, empty_response}
use imposter_go.Exchange.{ResponseState, new_response_state, is_header_explicit}
use imposter_go.Exchange.Context.{Exchange}
use imposter_go.Matcher.Tests.{plain, get_users}
use imposter_go.Store.{init_stores}
use imposter_go.Store.Handle.{new_request_store}
use imposter_go.Response.{process_response, delayed, respond, has_delay}
use imposter_go.Response.Laws.{process_response-script}
use imposter_go.Response.Headers.{process_response-explicit}
use imposter_go.Response.Delays.{panics, process_response-none}

abbrev pub untouched : Exchange → Option RequestMatcher → String → String
untouched e m text = text

-- A script has set the body and a header.
abbrev pub scripted : ResponseState
scripted = record new_response_state {
  headers = ("X-Id", "7") ∷ [];
  explicit_headers = ("X-Id", true) ∷ [];
  body = some "from the script";
  body_set = true;
}

abbrev pub exchange : Exchange
exchange = record {
  request = get_users;
  stores = record { shared_provider = init_stores; request_provider = init_stores };
  request_store = some new_request_store;
  response_state = scripted;
  sleeps = [];
  frames = [];
}

abbrev configured : Response
configured = record empty_response {
  status_code = pos 201;
  content = "from the configuration";
  headers = ("x-id", "8") ∷ [];
}

abbrev processed : Exchange
processed = respond plain untouched "/etc/imposter" none configured exchange

done : process_response plain untouched "/etc/imposter" exchange none configured ≡ some processed
unfolding process_response delayed
done = refl

explicit : is_header_explicit scripted "X-Id" ≡ true
unfolding is_header_explicit lookup canonical_header_key
explicit = refl

same_name : canonical_header_key "x-id" ≡ canonical_header_key "X-Id"
unfolding canonical_header_key
same_name = refl

not_content_type :
    (is_none (lookup "x-id" exchange.response_state.headers) && "x-id" == "Content-Type") ≡ false
unfolding lookup
not_content_type = refl

process_response-explicit_example :
    lookup "x-id" processed.response_state.headers ≡ lookup "x-id" exchange.response_state.headers
process_response-explicit_example =
    process_response-explicit plain untouched "/etc/imposter" exchange processed none configured
      "X-Id" "x-id" explicit same_name not_content_type done

process_response-script_example :
    (processed.response_state.body ≡ scripted.body)
    × (processed.response_state.status_code ≡ (
        if ltb_ℤ (pos 0) configured.status_code && not scripted.status_code_set
        then configured.status_code
        else scripted.status_code))
process_response-script_example =
    process_response-script plain untouched "/etc/imposter" exchange processed none configured refl
      refl refl refl done

-- A delay whose bounds are in the wrong order.
abbrev backwards : Response
backwards = record empty_response { delay = record { exact = pos 0; min = pos 20; max = pos 10 } }

process_response-none_example :
    is_none (process_response plain untouched "/etc/imposter" exchange none backwards) ≡ (
      if has_delay scripted.delay
      then panics scripted.delay
      else has_delay backwards.delay && panics backwards.delay)
process_response-none_example =
    process_response-none plain untouched "/etc/imposter" exchange none backwards
