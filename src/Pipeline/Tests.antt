-- ===== src/Pipeline/Tests.antt =====
-- Pipelines over concrete configurations.
use imposter_go.Common.{
  ◌+◌, String, ◌≡◌, refl, Bool, true, false, none, some, [], ◌∷◌, ◌++◌, is_some, arith, get_or,
}
use imposter_go.Common.Int.{pos, wrap64, ◌+ℤ◌}
use imposter_go.Common.Lists.{length}
use imposter_go.Common.Map.{lookup, insert}
use imposter_go.Config.{
  effective_responses, BaseResource, Config, empty_resource, empty_matcher, empty_response,
}
use imposter_go.Exchange.{ResponseState}
use imposter_go.Exchange.Context.{Exchange}
use imposter_go.Store.{
  Env, get_value, as_number, atomic_increment, add_to, drop_expired, is_expired, ensure_store,
  get_inmemory_ttl, set_expiry,
}
use imposter_go.RateLimiter.{
  find_matching_limit, get_resource_counter_key, check_and_increment, decide, last_exceeded,
  sort_limits, insert_limit,
}
use imposter_go.RateLimiter.InMemory.{counters, value, counters-CounterLaws}
use imposter_go.Matcher.Tests.{plain}
use imposter_go.Response.Tests.{untouched, exchange}
use imposter_go.Pipeline.{
  Engines, default_hooks, default_step_error_handler, rate_limit_check, run_pipeline, limit_key,
  limited, run_interceptors, after_interceptors, run_best, match_all, run_resource, after_limit,
  handle_resource, run_steps, respond_resource, process_responses,
}
use imposter_go.Matcher.Score.{
  calculate_match_score, total_score, match_method, match_path, before_wildcard, segments,
  match_segments, match_segment, is_pure_parameter, match_values, match_form, match_body,
  match_expressions,
}
use imposter_go.Matcher.Body.{single_body_matcher}
use imposter_go.Matcher.Best.{find_best_match, best_of}
use imposter_go.Common.Text.{
  split, trim, trim_left, trim_right, contains, count_char, has_prefix, has_suffix,
}
use imposter_go.Common.Text.Case.{equal_fold, to_upper}
use imposter_go.Capture.{capture_request_data}
use imposter_go.Response.{process_response, delayed}
use imposter_go.Store.Handle.{increment}
use imposter_go.Pipeline.Laws.{Outcome, run_pipeline-Outcome}
use imposter_go.Pipeline.Limits.{registered, rate_limit_check-balance}

abbrev forever : Env
forever = record { store_key_prefix = ""; store_inmemory_ttl = ""; now = 100 }

abbrev pub engines : Engines
engines = record {
  external = plain;
  env = forever;
  counters = counters forever;
  process_template = untouched;
  evaluate = λ e m expression. "";
  run_steps = λ steps e m. some (e, false);
  proxy = λ e name upstream. (e, false);
  generate_matcher_hash = λ m. "01234567";
}

abbrev nothing : Config
nothing = record {
  plugin = "rest";
  resources = [];
  interceptors = [];
  schedules = [];
  upstreams = [];
  system = none;
  security = none;
  cors = none;
  config_dir = "/etc/imposter";
}

abbrev one_at_a_time : BaseResource
one_at_a_time = record empty_resource {
  concurrency = record { threshold = pos 1; response = some empty_response } ∷ [];
  resource_id = "GET:/";
}

reports :
    (msg : String) (rs : ResponseState)
    → ((default_hooks engines nothing).on_step_error msg rs).handled ≡ true
unfolding default_hooks default_step_error_handler
reports msg rs = refl

-- A resource for the request, with a response.
abbrev greeting : Config
greeting = record nothing {
  resources =
      record {
        base = record empty_resource {
          request_matcher = record empty_matcher { method = "GET"; path = "/users/{id}" };
          response = some (record empty_response { content = "hello" });
        };
        security = none;
      }
      ∷ [];
}

abbrev greeted : Exchange
greeted = get_or (run_pipeline engines (default_hooks engines nothing) greeting exchange) exchange

runs : run_pipeline engines (default_hooks engines nothing) greeting exchange ≡ some greeted
unfolding run_pipeline run_interceptors after_interceptors run_best find_best_match match_all
    default_hooks calculate_match_score total_score match_method equal_fold match_path
    before_wildcard segments split trim trim_left trim_right match_segments match_segment
    is_pure_parameter contains count_char has_prefix has_suffix match_values match_form match_body
    single_body_matcher match_expressions best_of run_resource rate_limit_check after_limit
    handle_resource capture_request_data run_steps respond_resource process_responses
    effective_responses process_response delayed lookup to_upper
runs = refl

run_pipeline-Outcome_example :
    Outcome engines (default_hooks engines nothing) greeting reports exchange greeted
run_pipeline-Outcome_example =
    run_pipeline-Outcome engines (default_hooks engines nothing) greeting reports exchange greeted
      runs

abbrev key : String
key =
    get_resource_counter_key
      (limit_key engines (default_hooks engines nothing) nothing one_at_a_time)

abbrev checked : Bool × Exchange
checked =
    get_or (rate_limit_check engines (default_hooks engines nothing) nothing one_at_a_time exchange)
      (false, exchange)

let_through :
    rate_limit_check engines (default_hooks engines nothing) nothing one_at_a_time exchange
    ≡ some (checked.0, checked.1)
unfolding rate_limit_check default_hooks limited check_and_increment decide counters
    find_matching_limit last_exceeded sort_limits insert_limit increment atomic_increment add_to
    wrap64 ◌+ℤ◌ as_number lookup drop_expired is_expired ensure_store get_inmemory_ttl set_expiry
    insert
let_through = refl

nothing_counted : value forever key exchange.stores ≡ pos 0
unfolding value get_value as_number lookup
nothing_counted = refl

rate_limit_check-balance_example :
    (checked.1.response_state.cleanup_functions
      ≡ exchange.response_state.cleanup_functions
        ++ registered engines nothing one_at_a_time checked.0)
    × (value forever key checked.1.stores
        ≡ pos (0 + length (registered engines nothing one_at_a_time checked.0)))
    × (checked.0 ≡ is_some (find_matching_limit (pos (0 + 1)) one_at_a_time.concurrency))
rate_limit_check-balance_example =
    rate_limit_check-balance engines nothing (value forever) (counters-CounterLaws forever)
      one_at_a_time exchange checked.1 checked.0 0 refl nothing_counted (omega arith) let_through
