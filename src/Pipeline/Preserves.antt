-- ===== src/Pipeline/Preserves.antt =====
-- What a run of the pipeline keeps: a property of exchanges that its parts keep.
use imposter_go.Common.{
  String, ◌≡◌, Bool, true, false, not, Option, none, some, List, [], ◌∷◌, ◌==◌, if◌then◌else◌,
  get_or,
}
use imposter_go.Common.Lists.{is_empty}
use imposter_go.Common.Map.{Map, lookup}
use imposter_go.Common.Maybe.{Returns-ite, ◌>>=◌, Returns, Returns->>=, Returns-self}
use imposter_go.Common.Value.{string}
use imposter_go.Config.{
  ConcurrencyLimit, BaseResource, Interceptor, RequestMatcher, Response, Step, Config, Upstream,
  Capture, effective_responses,
}
use imposter_go.Exchange.{ResponseState, handled_with_resource, clear_explicit_flags}
use imposter_go.Exchange.Context.{Exchange, on_state}
use imposter_go.Store.Handle.{Stores, open_store, put}
use imposter_go.RateLimiter.{check_and_increment}
use imposter_go.Capture.{
  capture_request_data, capture_one, store_captured, get_value_from_capture_config,
}
use imposter_go.Matcher.Best.{MatchResult, find_best_match}
use imposter_go.Pipeline.{
  Engines, Hooks, Next, stop, go_on, limit_key, limited, rate_limit_check, matched_score,
  optional_response, after_steps, run_steps, respond_interceptor, intercept, run_interceptors,
  match_all, after_proxy, forward, pass_through, process_responses, mark_handled, respond_resource,
  handle_resource, after_limit, run_resource, run_best, after_interceptors, run_pipeline,
}

-- The parts that change an exchange keep the property.
pub record Preserves (g : Engines) (h : Hooks) (P : Exchange → Type 0) : Type 0 where
  pub state : (rs : ResponseState) (e : Exchange) → P e → P (record e { response_state = rs })
  pub stores : (s : Stores) (e : Exchange) → P e → P (record e { stores = s })
  pub responds :
      (e : Exchange) (m : Option RequestMatcher) (r : Option Response)
      → P e
      → Returns P (h.process_response e m r)
  pub steps :
      (ss : List Step) (e : Exchange) (m : RequestMatcher)
      → P e
      → Returns (λ r. P r.0) (g.run_steps ss e m)
  pub proxies : (e : Exchange) (name : String) (u : Upstream) → P e → P (g.proxy e name u).0

module _ (g : Engines) (h : Hooks) (cfg : Config) (P : Exchange → Type 0)
    (k : Preserves g h P) where
  abbrev NextHas : Next → Type 0
  NextHas (stop e) = P e
  NextHas (go_on e) = P e

  store_captured-keeps :
      (c : Capture) (item_name value : String) (e : Exchange)
      → P e
      → Returns P (store_captured g.external g.process_template g.env c item_name value e)
  unfolding store_captured
  store_captured-keeps c item_name value e p =
      let opened = open_store (if c.store == "" then "request" else c.store) e.request_store in
      Returns-ite P (value == "") (some e) _ p (
        Returns->>= (λ s. opened ≡ some s) P opened
          (λ s. some (record e { stores = put g.env s item_name (string value) e.stores }))
          (Returns-self opened)
          (λ s u. k.stores (put g.env s item_name (string value) e.stores) e p))

  capture_one-keeps :
      (m : RequestMatcher) (key : String) (c : Capture) (e : Exchange)
      → P e
      → Returns P (capture_one g.external g.process_template g.env m key c e)
  unfolding capture_one
  capture_one-keeps m key c e p =
      let item_name =
        get_value_from_capture_config g.external g.process_template g.env m e c.key key in
      let value =
        get_value_from_capture_config g.external g.process_template g.env m e c.capture_config "" in
      Returns-ite P (not (get_or c.enabled true)) (some e) _ p (
        Returns->>= (λ n. item_name ≡ some n) P item_name
          (λ n. value >>= λ v. store_captured g.external g.process_template g.env c n v e)
          (Returns-self item_name)
          (λ n u.
            Returns->>= (λ v. value ≡ some v) P value
              (λ v. store_captured g.external g.process_template g.env c n v e) (Returns-self value)
              (λ v w. store_captured-keeps c n v e p)))

  capture_request_data-keeps :
      (m : RequestMatcher) (cs : Map Capture) (e : Exchange)
      → P e
      → Returns P (capture_request_data g.external g.process_template g.env m cs e)
  unfolding capture_request_data
  capture_request_data-keeps m [] e p = p
  capture_request_data-keeps m ((key, c) ∷ cs) e p =
      Returns->>= P P (capture_one g.external g.process_template g.env m key c e)
        (capture_request_data g.external g.process_template g.env m cs)
        (capture_one-keeps m key c e p) (λ e' p'. capture_request_data-keeps m cs e' p')

  stop_or_go : (b : Bool) (e : Exchange) → P e → NextHas (if b then stop e else go_on e)
  stop_or_go true e p = p
  stop_or_go false e p = p

  after_steps-keeps : (r : Exchange × Bool) → P r.0 → NextHas (after_steps g h cfg r)
  unfolding after_steps
  after_steps-keeps (e, true) p = k.state _ e p
  after_steps-keeps (e, false) p = stop_or_go e.response_state.handled e p

  run_steps-keeps :
      (r : BaseResource) (e : Exchange) → P e → Returns NextHas (run_steps g h cfg r e)
  unfolding run_steps
  run_steps-keeps r e p = Returns-ite NextHas (is_empty r.steps) (some (go_on e)) _ p (
      Returns->>= (λ s. P s.0) NextHas (g.run_steps r.steps e r.request_matcher)
        (λ s. some (after_steps g h cfg s)) (k.steps r.steps e r.request_matcher p)
        (λ s q. after_steps-keeps s q))

  optional_response-keeps :
      (m : RequestMatcher) (resp : Option Response) (e : Exchange)
      → P e
      → Returns P (optional_response g h cfg m resp e)
  unfolding optional_response
  optional_response-keeps m none e p = p
  optional_response-keeps m (some resp) e p = k.responds e (some m) (some resp) p

  continues_or_stops :
      (b : Bool) (i : Interceptor) (e : Exchange)
      → P e
      → NextHas (if b then go_on e else stop (on_state (handled_with_resource i.base) e))
  continues_or_stops true i e p = p
  continues_or_stops false i e p = k.state _ e p

  respond_interceptor-keeps :
      (i : Interceptor) (n : Next) → NextHas n → Returns NextHas (respond_interceptor g h cfg i n)
  unfolding respond_interceptor
  respond_interceptor-keeps i (stop e) p = p
  respond_interceptor-keeps i (go_on e) p =
      Returns->>= P NextHas (optional_response g h cfg i.request_matcher i.response e)
        (λ e'.
          some (if i.continue then go_on e' else stop (on_state (handled_with_resource i.base) e')))
        (optional_response-keeps i.request_matcher i.response e p)
        (λ e' q. continues_or_stops i.continue i e' q)

  intercept-keeps : (i : Interceptor) (e : Exchange) → P e → Returns NextHas (intercept g h cfg i e)
  unfolding intercept
  intercept-keeps i e p =
      Returns-ite NextHas (not (matched_score g h cfg (h.calculate_score e i.request_matcher)))
        (some (go_on e)) _ p
        (Returns->>= P NextHas
          (capture_request_data g.external g.process_template g.env i.request_matcher i.capture e)
          (λ c. run_steps g h cfg i.base c >>= respond_interceptor g h cfg i)
          (capture_request_data-keeps i.request_matcher i.capture e p)
          (λ c q.
            Returns->>= NextHas NextHas (run_steps g h cfg i.base c) (respond_interceptor g h cfg i)
              (run_steps-keeps i.base c q) (λ n s. respond_interceptor-keeps i n s)))

  run_interceptors-keeps :
      (is : List Interceptor) (n : Next)
      → NextHas n
      → Returns NextHas (run_interceptors g h cfg is n)
  unfolding run_interceptors
  run_interceptors-keeps [] n s = s
  run_interceptors-keeps (i ∷ is) (stop e) s = s
  run_interceptors-keeps (i ∷ is) (go_on e) s =
      Returns->>= NextHas NextHas (intercept g h cfg i e) (run_interceptors g h cfg is)
        (intercept-keeps i e s) (λ n t. run_interceptors-keeps is n t)

  after_proxy-keeps : (r : BaseResource) (p : Exchange × Bool) → P p.0 → P (after_proxy g h cfg r p)
  unfolding after_proxy
  after_proxy-keeps r (e, true) p = k.state _ e p
  after_proxy-keeps r (e, false) p = k.state _ e p

  forward-keeps :
      (r : BaseResource) (u : Option Upstream) (e : Exchange) → P e → P (forward g h cfg r u e)
  unfolding forward
  forward-keeps r none e p = k.state _ e p
  forward-keeps r (some u) e p =
      after_proxy-keeps r (g.proxy e r.passthrough u) (k.proxies e r.passthrough u p)

  process_responses-keeps :
      (m : RequestMatcher) (rs : List Response) (e : Exchange)
      → P e
      → Returns P (process_responses g h cfg m rs e)
  unfolding process_responses
  process_responses-keeps m [] e p = p
  process_responses-keeps m (r ∷ rs) e p =
      Returns->>= P P (h.process_response e (some m) (some r)) (process_responses g h cfg m rs)
        (k.responds e (some m) (some r) p) (λ e' q. process_responses-keeps m rs e' q)

  marked_or_not :
      (b : Bool) (r : BaseResource) (e : Exchange)
      → P e
      → P (if b then e else on_state (handled_with_resource r) e)
  marked_or_not true r e p = p
  marked_or_not false r e p = k.state _ e p

  respond_resource-keeps :
      (r : BaseResource) (n : Next) → NextHas n → Returns P (respond_resource g h cfg r n)
  unfolding respond_resource mark_handled
  respond_resource-keeps r (stop e) p = p
  respond_resource-keeps r (go_on e) p =
      Returns->>= P P
        (process_responses g h cfg r.request_matcher (effective_responses r.response r.responses) e)
        (λ e'. some (mark_handled g h cfg r e'))
        (process_responses-keeps r.request_matcher (effective_responses r.response r.responses) e p)
        (λ e' q. marked_or_not e'.response_state.handled r e' q)

  handle_resource-keeps :
      (r : BaseResource) (e : Exchange) → P e → Returns P (handle_resource g h cfg r e)
  unfolding handle_resource
  handle_resource-keeps r e p =
      Returns->>= P P
        (capture_request_data g.external g.process_template g.env r.request_matcher r.capture e)
        (λ c. run_steps g h cfg r c >>= respond_resource g h cfg r)
        (capture_request_data-keeps r.request_matcher r.capture e p)
        (λ c q.
          Returns->>= NextHas P (run_steps g h cfg r c) (respond_resource g h cfg r)
            (run_steps-keeps r c q) (λ n s. respond_resource-keeps r n s))

  limited-keeps :
      (r : BaseResource) (exceeded : Option ConcurrencyLimit) (e : Exchange)
      → P e
      → Returns (λ c. P c.1) (limited g h cfg r exceeded e)
  unfolding limited
  limited-keeps r none e p = k.state _ e p
  limited-keeps r (some limit) e p =
      Returns->>= P (λ c. P c.1)
        (h.process_response (on_state clear_explicit_flags e) (some r.request_matcher)
          limit.response)
        (λ e'. some (true, on_state (handled_with_resource r) e'))
        (k.responds (on_state clear_explicit_flags e) (some r.request_matcher) limit.response
          (k.state _ e p))
        (λ e' q. k.state _ e' q)

  rate_limit_check-keeps :
      (r : BaseResource) (e : Exchange) → P e → Returns (λ c. P c.1) (rate_limit_check g h cfg r e)
  unfolding rate_limit_check
  rate_limit_check-keeps r e p =
      let checked = check_and_increment g.counters (limit_key g h cfg r) r.concurrency e.stores in
      Returns-ite (λ c. P c.1) (is_empty r.concurrency) (some (false, e)) _ p
        (limited-keeps r checked.0 (record e { stores = checked.1 }) (k.stores checked.1 e p))

  after_limit-keeps :
      (r : BaseResource) (c : Bool × Exchange) → P c.1 → Returns P (after_limit g h cfg r c)
  unfolding after_limit pass_through
  after_limit-keeps r (true, e) p = p
  after_limit-keeps r (false, e) p =
      Returns-ite P (r.passthrough == "") (handle_resource g h cfg r e)
        (some (pass_through g h cfg r e)) (handle_resource-keeps r e p)
        (forward-keeps r (lookup r.passthrough cfg.upstreams) e p)

  run_best-keeps :
      (best : Option (MatchResult × Bool)) (e : Exchange)
      → P e
      → Returns P (run_best g h cfg best e)
  unfolding run_best run_resource
  run_best-keeps none e p = p
  run_best-keeps (some (best, tie)) e p =
      Returns->>= (λ c. P c.1) P (rate_limit_check g h cfg best.resource.base e)
        (after_limit g h cfg best.resource.base) (rate_limit_check-keeps best.resource.base e p)
        (λ c q. after_limit-keeps best.resource.base c q)

  after_interceptors-keeps : (n : Next) → NextHas n → Returns P (after_interceptors g h cfg n)
  unfolding after_interceptors
  after_interceptors-keeps (stop e) p = p
  after_interceptors-keeps (go_on e) p =
      run_best-keeps (find_best_match (match_all g h cfg cfg.resources e)) e p

  -- A property of exchanges that the parts keep is kept by the pipeline, whatever branches it takes.
  pub run_pipeline-keeps : (e : Exchange) → P e → Returns P (run_pipeline g h cfg e)
  unfolding run_pipeline
  run_pipeline-keeps e p =
      Returns->>= NextHas P (run_interceptors g h cfg cfg.interceptors (go_on e))
        (after_interceptors g h cfg) (run_interceptors-keeps cfg.interceptors (go_on e) p)
        (λ n q. after_interceptors-keeps n q)
