-- ===== src/Pipeline.antt =====
-- internal/pipeline/pipeline.go and RateLimitCheck of internal/common/ratelimit.go. None stands for
-- a panic.
pub mod Tests
pub mod Laws
pub mod Limits
pub mod Preserves
use imposter_go.Common.{
  ℕ, String, Bool, true, false, not, Option, none, some, List, [], ◌∷◌, ◌++◌, ◌==◌, if◌then◌else◌,
  get_or,
}
use imposter_go.Common.Int.{ℤ, pos, ltb_ℤ}
use imposter_go.Common.Lists.{is_empty}
use imposter_go.Common.Map.{Map, lookup}
use imposter_go.Common.Maybe.{◌>>=◌}
use imposter_go.Common.Text.{concat}
use imposter_go.Config.{
  ConcurrencyLimit, BaseResource, Resource, Interceptor, RequestMatcher, Response, Step, Config,
  Upstream, System, effective_responses,
}
use imposter_go.Config.ResourceIds.{generate_resource_key}
use imposter_go.Exchange.{ResponseState, Cleanup, handled_with_resource, clear_explicit_flags}
use imposter_go.Exchange.Context.{Exchange, on_state}
use imposter_go.External.{External}
use imposter_go.Store.{Env}
use imposter_go.Store.Handle.{Stores}
use imposter_go.RateLimiter.{Counters, check_and_increment}
use imposter_go.Capture.{capture_request_data}
use imposter_go.Matcher.Best.{MatchResult, find_best_match}
use imposter_go.Matcher.Score.{calculate_match_score}
use imposter_go.Response.{process_response}

-- What the pipeline calls: the engines of other packages, and what the operating system gives.
-- `run_steps` and `proxy` return the exchange that they leave, and whether they returned an error;
-- `run_steps` may panic.
pub record Engines : Type 0 where
  pub external : External
  pub env : Env
  pub counters : Counters Stores
  pub process_template : Exchange → Option RequestMatcher → String → String
  pub evaluate : Exchange → RequestMatcher → String → String
  pub run_steps : List Step → Exchange → RequestMatcher → Option (Exchange × Bool)
  pub proxy : Exchange → String → Upstream → Exchange × Bool
  pub generate_matcher_hash : RequestMatcher → String

-- ProtocolHooks, with the defaults in place of nil fields.
pub record Hooks : Type 0 where
  pub calculate_score : Exchange → RequestMatcher → ℤ × Bool
  pub on_step_error : String → ResponseState → ResponseState
  pub process_response : Exchange → Option RequestMatcher → Option Response → Option Exchange
  pub get_resource_name : BaseResource → String × String

-- Whether the pipeline goes on.
pub data Next : Type 0 where
  stop go_on : Exchange → Next

abbrev pub failed_with : ℤ → String → ResponseState → ResponseState
failed_with code body rs = record rs { status_code = code; body = some body }

-- defaultStepErrorHandler, getResourceName
unfoldable pub default_step_error_handler : String → ResponseState → ResponseState
default_step_error_handler msg rs = record (failed_with (pos 500) msg rs) { handled = true }

unfoldable pub default_resource_name : BaseResource → String × String
default_resource_name r = (r.path, r.method)

-- The hooks of a pipeline that is given none. The system's namespaces are those of the
-- configuration.
unfoldable pub default_hooks : Engines → Config → Hooks
default_hooks g cfg = record {
  calculate_score = λ e m.
      calculate_match_score g.external (g.evaluate e m) e.request m
        (elim cfg.system [ none ↦ [] | some s ↦ s.xml_namespaces ]);
  on_step_error = default_step_error_handler;
  process_response =
      λ e m r. r >>= process_response g.external (g.process_template) cfg.config_dir e m;
  get_resource_name = default_resource_name;
}

module _ (g : Engines) (h : Hooks) (cfg : Config) where
  -- The parts of RateLimitCheck: the key of the resource, and what follows the limiter's answer,
  -- a cleanup function for a request that is let through, and a response for one that is not.
  unfoldable pub limit_key : BaseResource → String
  limit_key r =
      if r.resource_id == ""
      then generate_resource_key g.generate_matcher_hash (h.get_resource_name r).1
          (h.get_resource_name r).0 r.request_matcher
      else r.resource_id

  abbrev registers : Cleanup → ResponseState → ResponseState
  registers c rs = record rs { cleanup_functions = rs.cleanup_functions ++ (c ∷ []) }

  unfoldable pub limited :
      BaseResource → Option ConcurrencyLimit → Exchange → Option (Bool × Exchange)
  limited r none e = some (false, on_state (registers (Cleanup.decrement (limit_key r))) e)
  limited r (some limit) e = do
    e' ←
        h.process_response (on_state clear_explicit_flags e) (some r.request_matcher) limit.response
    some (true, on_state (handled_with_resource r) e')

  -- RateLimitCheck: whether the request is limited, and the exchange.
  unfoldable pub rate_limit_check : BaseResource → Exchange → Option (Bool × Exchange)
  rate_limit_check r e =
      if is_empty r.concurrency
      then some (false, e)
      else let (exceeded, stores) =
          check_and_increment g.counters (limit_key r) r.concurrency e.stores in
        limited r exceeded (record e { stores = stores })

  abbrev matched_score : ℤ × Bool → Bool
  matched_score (score, wildcard) = ltb_ℤ (pos 0) score

  -- The steps of a resource: an error and a handled response both end the pipeline.
  unfoldable pub after_steps : Exchange × Bool → Next
  after_steps (e, true) = stop (on_state (h.on_step_error "Failed to execute steps") e)
  after_steps (e, false) = if e.response_state.handled then stop e else go_on e

  unfoldable pub run_steps : BaseResource → Exchange → Option Next
  run_steps r e =
      if is_empty r.steps
      then some (go_on e)
      else do result ← g.run_steps r.steps e r.request_matcher; some (after_steps result)

  unfoldable pub optional_response : RequestMatcher → Option Response → Exchange → Option Exchange
  optional_response m none e = some e
  optional_response m (some resp) e = h.process_response e (some m) (some resp)

  -- A matched interceptor, after its steps. Its log message does not change the state.
  unfoldable pub respond_interceptor : Interceptor → Next → Option Next
  respond_interceptor i (stop e) = some (stop e)
  respond_interceptor i (go_on e) = do
    e' ← optional_response i.request_matcher i.response e
    some (if i.continue then go_on e' else stop (on_state (handled_with_resource i.base) e'))

  unfoldable pub intercept : Interceptor → Exchange → Option Next
  intercept i e =
      if not (matched_score (h.calculate_score e i.request_matcher)) then some (go_on e) else do
        captured ←
            capture_request_data g.external g.process_template g.env i.request_matcher i.capture e
        stepped ← run_steps i.base captured
        respond_interceptor i stepped

  -- The loop over the interceptors, which nothing follows once one has stopped it.
  unfoldable pub run_interceptors : List Interceptor → Next → Option Next
  run_interceptors [] next = some next
  run_interceptors (i ∷ is) (stop e) = some (stop e)
  run_interceptors (i ∷ is) (go_on e) = do next ← intercept i e; run_interceptors is next

  -- The resources that match, with their scores.
  unfoldable pub match_all : List Resource → Exchange → List MatchResult
  match_all [] e = []
  match_all (r ∷ rs) e =
      let (score, wildcard) = h.calculate_score e r.request_matcher in
      let rest = match_all rs e in
      if ltb_ℤ (pos 0) score
      then record {
        resource = r;
        score = score;
        wildcard = wildcard;
        runtime_generated = r.runtime_generated;
      }
        ∷ rest
      else rest

  -- A resource that names an upstream. An upstream that is not configured is an error.
  unfoldable pub after_proxy : BaseResource → Exchange × Bool → Exchange
  after_proxy r (e, true) =
      on_state (λ rs. handled_with_resource r (failed_with (pos 502) "Upstream request failed" rs))
        e
  after_proxy r (e, false) = on_state (handled_with_resource r) e

  unfoldable pub forward : BaseResource → Option Upstream → Exchange → Exchange
  forward r none e =
      on_state
        (λ rs.
          handled_with_resource r
            (failed_with (pos 500) (concat "Unknown upstream: " r.passthrough) rs))
        e
  forward r (some upstream) e = after_proxy r (g.proxy e r.passthrough upstream)

  unfoldable pub pass_through : BaseResource → Exchange → Exchange
  pass_through r e = forward r (lookup r.passthrough cfg.upstreams) e

  -- The loop over the responses of a resource.
  unfoldable pub process_responses : RequestMatcher → List Response → Exchange → Option Exchange
  process_responses m [] e = some e
  process_responses m (resp ∷ resps) e = do
    e' ← h.process_response e (some m) (some resp)
    process_responses m resps e'

  unfoldable pub mark_handled : BaseResource → Exchange → Exchange
  mark_handled r e = if e.response_state.handled then e else on_state (handled_with_resource r) e

  unfoldable pub respond_resource : BaseResource → Next → Option Exchange
  respond_resource r (stop e) = some e
  respond_resource r (go_on e) = do
    e' ← process_responses r.request_matcher (effective_responses r.response r.responses) e
    some (mark_handled r e')

  -- The captures, steps and responses of the best match.
  unfoldable pub handle_resource : BaseResource → Exchange → Option Exchange
  handle_resource r e = do
    captured ←
        capture_request_data g.external g.process_template g.env r.request_matcher r.capture e
    stepped ← run_steps r captured
    respond_resource r stepped

  unfoldable pub after_limit : BaseResource → Bool × Exchange → Option Exchange
  after_limit r (true, e) = some e
  after_limit r (false, e) =
      if r.passthrough == "" then handle_resource r e else some (pass_through r e)

  unfoldable pub run_resource : BaseResource → Exchange → Option Exchange
  run_resource r e = do checked ← rate_limit_check r e; after_limit r checked

  unfoldable pub run_best : Option (MatchResult × Bool) → Exchange → Option Exchange
  run_best none e = some e
  run_best (some (best, tie)) e = run_resource best.resource.base e

  unfoldable pub after_interceptors : Next → Option Exchange
  after_interceptors (stop e) = some e
  after_interceptors (go_on e) = run_best (find_best_match (match_all cfg.resources e)) e

  -- RunPipeline
  unfoldable pub run_pipeline : Exchange → Option Exchange
  run_pipeline e = do next ← run_interceptors cfg.interceptors (go_on e); after_interceptors next
