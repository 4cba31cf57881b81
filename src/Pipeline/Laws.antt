-- ===== src/Pipeline/Laws.antt =====
-- What every run of the pipeline ends in, and how it accounts for the places it takes.
use imposter_go.Common.{
  String, ◌≡◌, refl, Bool, true, false, not, Option, none, some, List, [], ◌∷◌, ◌==◌, if◌then◌else◌,
  arith, ◌⊎◌, inl, inr,
}
use imposter_go.Common.Lists.{is_empty}
use imposter_go.Common.Map.{lookup}
use imposter_go.Common.Maybe.{
  Returns-ite, Returns-map, ◌>>=◌, Returns, Returns->>=, Returns-some, Returns-self,
}
use imposter_go.Config.{
  ConcurrencyLimit, BaseResource, Interceptor, Config, Upstream, effective_responses,
}
use imposter_go.Exchange.{ResponseState, handled_with_resource, clear_explicit_flags}
use imposter_go.Exchange.Context.{Exchange, on_state}
use imposter_go.RateLimiter.{check_and_increment}
use imposter_go.Capture.{capture_request_data}
use imposter_go.Matcher.Best.{MatchResult, find_best_match, best_of}
use imposter_go.Pipeline.{
  Engines, Hooks, Next, stop, go_on, limit_key, limited, rate_limit_check, matched_score,
  optional_response, after_steps, run_steps, respond_interceptor, intercept, run_interceptors,
  match_all, after_proxy, forward, pass_through, process_responses, mark_handled, respond_resource,
  handle_resource, after_limit, run_resource, run_best, after_interceptors, run_pipeline,
}

abbrev IsHandled : Exchange → Type 0
IsHandled e = e.response_state.handled ≡ true

-- What stops is handled.
abbrev StopsHandled : Next → Type 0
StopsHandled (stop e) = IsHandled e
StopsHandled (go_on e) = Unit

Returns-both :
    {A : Type 0} (P Q : A → Type 0) (o : Option A)
    → Returns P o
    → Returns Q o
    → Returns (λ a. P a × Q a) o
Returns-both P Q none p q = tt
Returns-both P Q (some a) p q = (p, q)

module _ (g : Engines) (h : Hooks) (cfg : Config)
    (reports : (msg : String) (rs : ResponseState) → (h.on_step_error msg rs).handled ≡ true) where
  stop_or_go :
      (b : Bool) (e : Exchange)
      → e.response_state.handled ≡ b
      → StopsHandled (if b then stop e else go_on e)
  stop_or_go true e handled = handled
  stop_or_go false e handled = tt

  after_steps-StopsHandled : (r : Exchange × Bool) → StopsHandled (after_steps g h cfg r)
  unfolding after_steps
  after_steps-StopsHandled (e, true) = reports "Failed to execute steps" e.response_state
  after_steps-StopsHandled (e, false) = stop_or_go e.response_state.handled e refl

  run_steps-StopsHandled :
      (r : BaseResource) (e : Exchange) → Returns StopsHandled (run_steps g h cfg r e)
  unfolding run_steps
  run_steps-StopsHandled r e =
      let ran = g.run_steps r.steps e r.request_matcher in
      Returns-ite StopsHandled (is_empty r.steps) (some (go_on e)) _ tt (
        Returns->>= (λ s. ran ≡ some s) StopsHandled ran (λ s. some (after_steps g h cfg s))
          (Returns-self ran) (λ s u. after_steps-StopsHandled s))

  continues_or_stops :
      (b : Bool) (i : Interceptor) (e : Exchange)
      → StopsHandled (if b then go_on e else stop (on_state (handled_with_resource i.base) e))
  unfolding handled_with_resource
  continues_or_stops true i e = tt
  continues_or_stops false i e = refl

  respond_interceptor-StopsHandled :
      (i : Interceptor) (n : Next)
      → StopsHandled n
      → Returns StopsHandled (respond_interceptor g h cfg i n)
  unfolding respond_interceptor
  respond_interceptor-StopsHandled i (stop e) handled = handled
  respond_interceptor-StopsHandled i (go_on e) u =
      let responded = optional_response g h cfg i.request_matcher i.response e in
      Returns->>= (λ e'. responded ≡ some e') StopsHandled responded
        (λ e'.
          some (if i.continue then go_on e' else stop (on_state (handled_with_resource i.base) e')))
        (Returns-self responded) (λ e' v. continues_or_stops i.continue i e')

  intercept-StopsHandled :
      (i : Interceptor) (e : Exchange) → Returns StopsHandled (intercept g h cfg i e)
  unfolding intercept
  intercept-StopsHandled i e =
      let captured =
        capture_request_data g.external g.process_template g.env i.request_matcher i.capture e in
      Returns-ite StopsHandled (not (matched_score g h cfg (h.calculate_score e i.request_matcher)))
        (some (go_on e)) _ tt
        (Returns->>= (λ c. captured ≡ some c) StopsHandled captured
          (λ c. run_steps g h cfg i.base c >>= respond_interceptor g h cfg i)
          (Returns-self captured)
          (λ c u.
            Returns->>= StopsHandled StopsHandled (run_steps g h cfg i.base c)
              (respond_interceptor g h cfg i) (run_steps-StopsHandled i.base c)
              (λ n s. respond_interceptor-StopsHandled i n s)))

  run_interceptors-StopsHandled :
      (is : List Interceptor) (n : Next)
      → StopsHandled n
      → Returns StopsHandled (run_interceptors g h cfg is n)
  unfolding run_interceptors
  run_interceptors-StopsHandled [] n s = s
  run_interceptors-StopsHandled (i ∷ is) (stop e) s = s
  run_interceptors-StopsHandled (i ∷ is) (go_on e) s =
      Returns->>= StopsHandled StopsHandled (intercept g h cfg i e) (run_interceptors g h cfg is)
        (intercept-StopsHandled i e) (λ n t. run_interceptors-StopsHandled is n t)

  after_proxy-IsHandled :
      (r : BaseResource) (p : Exchange × Bool) → IsHandled (after_proxy g h cfg r p)
  unfolding after_proxy handled_with_resource
  after_proxy-IsHandled r (e, true) = refl
  after_proxy-IsHandled r (e, false) = refl

  forward-IsHandled :
      (r : BaseResource) (u : Option Upstream) (e : Exchange) → IsHandled (forward g h cfg r u e)
  unfolding forward handled_with_resource
  forward-IsHandled r none e = refl
  forward-IsHandled r (some upstream) e = after_proxy-IsHandled r (g.proxy e r.passthrough upstream)

  pass_through-IsHandled : (r : BaseResource) (e : Exchange) → IsHandled (pass_through g h cfg r e)
  unfolding pass_through
  pass_through-IsHandled r e = forward-IsHandled r (lookup r.passthrough cfg.upstreams) e

  mark_handled-IsHandled : (r : BaseResource) (e : Exchange) → IsHandled (mark_handled g h cfg r e)
  unfolding mark_handled handled_with_resource
  mark_handled-IsHandled r e = ground arith

  respond_resource-IsHandled :
      (r : BaseResource) (n : Next)
      → StopsHandled n
      → Returns IsHandled (respond_resource g h cfg r n)
  unfolding respond_resource
  respond_resource-IsHandled r (stop e) s = s
  respond_resource-IsHandled r (go_on e) s =
      let responded =
        process_responses g h cfg r.request_matcher (effective_responses r.response r.responses)
          e in
      Returns->>= (λ e'. responded ≡ some e') IsHandled responded
        (λ e'. some (mark_handled g h cfg r e')) (Returns-self responded)
        (λ e' u. mark_handled-IsHandled r e')

  handle_resource-IsHandled :
      (r : BaseResource) (e : Exchange) → Returns IsHandled (handle_resource g h cfg r e)
  unfolding handle_resource
  handle_resource-IsHandled r e =
      let captured =
        capture_request_data g.external g.process_template g.env r.request_matcher r.capture e in
      Returns->>= (λ c. captured ≡ some c) IsHandled captured
        (λ c. run_steps g h cfg r c >>= respond_resource g h cfg r) (Returns-self captured)
        (λ c u.
          Returns->>= StopsHandled IsHandled (run_steps g h cfg r c) (respond_resource g h cfg r)
            (run_steps-StopsHandled r c) (λ n s. respond_resource-IsHandled r n s))

  -- A request that is limited has its response.
  abbrev LimitedHandled : Bool × Exchange → Type 0
  LimitedHandled (true, e) = IsHandled e
  LimitedHandled (false, e) = Unit

  limited-LimitedHandled :
      (r : BaseResource) (exceeded : Option ConcurrencyLimit) (e : Exchange)
      → Returns LimitedHandled (limited g h cfg r exceeded e)
  unfolding limited handled_with_resource
  limited-LimitedHandled r none e = tt
  limited-LimitedHandled r (some limit) e =
      let responded =
        h.process_response (on_state clear_explicit_flags e) (some r.request_matcher)
          limit.response in
      Returns->>= (λ e'. responded ≡ some e') LimitedHandled responded
        (λ e'. some (true, on_state (handled_with_resource r) e')) (Returns-self responded)
        (λ e' u. refl)

  rate_limit_check-LimitedHandled :
      (r : BaseResource) (e : Exchange) → Returns LimitedHandled (rate_limit_check g h cfg r e)
  unfolding rate_limit_check
  rate_limit_check-LimitedHandled r e =
      let checked = check_and_increment g.counters (limit_key g h cfg r) r.concurrency e.stores in
      Returns-ite LimitedHandled (is_empty r.concurrency) (some (false, e)) _ tt
        (limited-LimitedHandled r checked.0 (record e { stores = checked.1 }))

  after_limit-IsHandled :
      (r : BaseResource) (c : Bool × Exchange)
      → LimitedHandled c
      → Returns IsHandled (after_limit g h cfg r c)
  unfolding after_limit
  after_limit-IsHandled r (true, e) l = l
  after_limit-IsHandled r (false, e) l =
      Returns-ite IsHandled (r.passthrough == "") (handle_resource g h cfg r e)
        (some (pass_through g h cfg r e)) (handle_resource-IsHandled r e)
        (pass_through-IsHandled r e)

  run_resource-IsHandled :
      (r : BaseResource) (e : Exchange) → Returns IsHandled (run_resource g h cfg r e)
  unfolding run_resource
  run_resource-IsHandled r e =
      Returns->>= LimitedHandled IsHandled (rate_limit_check g h cfg r e) (after_limit g h cfg r)
        (rate_limit_check-LimitedHandled r e) (λ c l. after_limit-IsHandled r c l)

  run_best-IsHandled :
      (m : MatchResult) (ms : List MatchResult) (e : Exchange)
      → Returns IsHandled (run_best g h cfg (find_best_match (m ∷ ms)) e)
  unfolding find_best_match run_best
  run_best-IsHandled m ms e = run_resource-IsHandled (best_of (m, false) ms).0.resource.base e

  -- What a pipeline that returns has come to: the response is handled, or the interceptors went on
  -- and no resource matches.
  abbrev pub Outcome : Exchange → Exchange → Type 0
  Outcome e e' =
      IsHandled e'
      ⊎ ((run_interceptors g h cfg cfg.interceptors (go_on e) ≡ some (go_on e'))
          × (match_all g h cfg cfg.resources e' ≡ []))

  matches_or_not :
      (e e' : Exchange) (ms : List MatchResult)
      → match_all g h cfg cfg.resources e' ≡ ms
      → run_interceptors g h cfg cfg.interceptors (go_on e) ≡ some (go_on e')
      → Returns (Outcome e) (run_best g h cfg (find_best_match ms) e')
  unfolding run_best find_best_match
  matches_or_not e e' [] none_match went_on = inr (went_on, none_match)
  matches_or_not e e' (m ∷ ms) matched went_on =
      Returns-map IsHandled (Outcome e) (run_best g h cfg (find_best_match (m ∷ ms)) e')
        (run_best-IsHandled m ms e') (λ a handled. inl handled)

  after_interceptors-Outcome :
      (e : Exchange) (n : Next)
      → StopsHandled n
      → run_interceptors g h cfg cfg.interceptors (go_on e) ≡ some n
      → Returns (Outcome e) (after_interceptors g h cfg n)
  unfolding after_interceptors
  after_interceptors-Outcome e (stop e') s ran = inl s
  after_interceptors-Outcome e (go_on e') s ran =
      matches_or_not e e' (match_all g h cfg cfg.resources e') refl ran

  -- Where the error handler of the hooks marks the response as handled, a pipeline that returns
  -- leaves a response that is handled, or one that the interceptors let through and no resource
  -- matches.
  pub run_pipeline-Outcome : (e e' : Exchange) → run_pipeline g h cfg e ≡ some e' → Outcome e e'
  unfolding run_pipeline
  run_pipeline-Outcome e e' done =
      let ran = run_interceptors g h cfg cfg.interceptors (go_on e) in
      Returns-some (Outcome e)
        (Returns->>= (λ n. StopsHandled n × (ran ≡ some n)) (Outcome e) ran
          (after_interceptors g h cfg)
          (Returns-both StopsHandled (λ n. ran ≡ some n) ran
            (run_interceptors-StopsHandled cfg.interceptors (go_on e) tt) (Returns-self ran))
          (λ n p. after_interceptors-Outcome e n p.0 p.1))
        done
