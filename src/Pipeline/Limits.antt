-- ===== src/Pipeline/Limits.antt =====
-- The places that the rate limiter takes and the cleanup functions that give them back.
use imposter_go.Common.{
  ℕ, ◌+◌, ◌<◌, String, ◌≡◌, refl, ap, sym, ◌∙◌, Bool, true, false, Option, none, some, List, [],
  ◌∷◌, ◌++◌, if◌then◌else◌, is_none, is_some, arith,
}
use mathlib.Core.List.{append-nil}
use imposter_go.Common.Int.{ℤ, pos, two63}
use imposter_go.Common.Lists.{is_empty, length}
use imposter_go.Common.Maybe.{Returns, Returns->>=, Returns-some, Returns-of}
use imposter_go.Config.{ConcurrencyLimit, RequestMatcher, BaseResource, Response, Config}
use imposter_go.Exchange.{Cleanup, handled_with_resource, clear_explicit_flags}
use imposter_go.Exchange.Context.{Exchange, on_state}
use imposter_go.Store.Handle.{Stores}
use imposter_go.RateLimiter.{check_and_increment, get_resource_counter_key, find_matching_limit}
use imposter_go.RateLimiter.Counting.{CounterLaws, check_and_increment-counts}
use imposter_go.Response.{process_response}
use imposter_go.Response.Frame.{IsFramed, process_response-IsFramed}
use imposter_go.Pipeline.{Engines, default_hooks, limit_key, limited, rate_limit_check}

module _ (g : Engines) (cfg : Config) where
  -- The cleanup functions after a check.
  abbrev pub registered : BaseResource → Bool → List Cleanup
  registered r true = []
  registered r false = Cleanup.decrement (limit_key g (default_hooks g cfg) cfg r) ∷ []

  respond-IsFramed :
      (e : Exchange) (m : Option RequestMatcher) (resp : Option Response)
      → Returns (IsFramed e) ((default_hooks g cfg).process_response e m resp)
  unfolding default_hooks
  respond-IsFramed e m none = tt
  respond-IsFramed e m (some resp) =
      Returns-of (IsFramed e)
        (process_response g.external g.process_template cfg.config_dir e m resp)
        (λ e' done.
          process_response-IsFramed g.external g.process_template cfg.config_dir e e' m resp done)

  abbrev Accounts : BaseResource → Exchange → Bool → Bool × Exchange → Type 0
  Accounts r e b c =
      (c.0 ≡ b)
      × (c.1.response_state.cleanup_functions
          ≡ e.response_state.cleanup_functions ++ registered r c.0)
      × (c.1.stores ≡ e.stores)

  limited-registered :
      (r : BaseResource) (exceeded : Option ConcurrencyLimit) (e : Exchange)
      → Returns (Accounts r e (is_some exceeded)) (limited g (default_hooks g cfg) cfg r exceeded e)
  unfolding limited clear_explicit_flags handled_with_resource
  limited-registered r none e = (refl, refl, refl)
  limited-registered r (some limit) e =
      let cleared = on_state clear_explicit_flags e in
      let responded =
        (default_hooks g cfg).process_response cleared (some r.request_matcher) limit.response in
      Returns->>= (IsFramed cleared) (Accounts r e true) responded
        (λ e'. some (true, on_state (handled_with_resource r) e'))
        (respond-IsFramed cleared (some r.request_matcher) limit.response)
        (λ e' f. (refl, f.0 ∙ sym (append-nil e.response_state.cleanup_functions), f.1))

  counts :
      (value : String → Stores → ℤ)
      → CounterLaws g.counters value
      → (key : String) (limits : List ConcurrencyLimit) (s : Stores) (n : ℕ)
      → is_empty limits ≡ false
      → value (get_resource_counter_key key) s ≡ pos n
      → n + 1 < two63
      → ((check_and_increment g.counters key limits s).0 ≡ find_matching_limit (pos (n + 1)) limits)
        × (value (get_resource_counter_key key) (check_and_increment g.counters key limits s).1
            ≡ (if is_none (find_matching_limit (pos (n + 1)) limits) then pos (n + 1) else pos n))
  counts value laws key [] s n h e lt = cc
  counts value laws key (l ∷ ls) s n h e lt =
      check_and_increment-counts g.counters value laws key l ls s n e lt

  placed :
      (r : BaseResource) (b : Bool) (found : Option ConcurrencyLimit) (n : ℕ)
      → b ≡ is_some found
      → (if is_none found then pos (n + 1) else pos n) ≡ pos (n + length (registered r b))
  placed r b found n h = ground arith

  rate_limit_check-limited :
      (r : BaseResource) (e : Exchange)
      → is_empty r.concurrency ≡ false
      → rate_limit_check g (default_hooks g cfg) cfg r e
        ≡ limited g
            (default_hooks g cfg)
            cfg
            r
            (check_and_increment g.counters
              (limit_key g (default_hooks g cfg) cfg r)
              r.concurrency
              e.stores).0
            (record e {
              stores =
                  (check_and_increment g.counters
                    (limit_key g (default_hooks g cfg) cfg r)
                    r.concurrency
                    e.stores).1;
            })
  unfolding rate_limit_check
  rate_limit_check-limited r e h = rw h refl

  -- For the default hooks of the pipeline, and counters that obey CounterLaws, so that no call of them
  -- fails and each counts exactly: with `n` places of a resource with limits taken, a check that
  -- returns takes one more and registers one cleanup function that gives it back, or takes none and registers none: the count
  -- rises by as many as the functions that are added.
  pub rate_limit_check-balance :
      (value : String → Stores → ℤ)
      → CounterLaws g.counters value
      → (r : BaseResource) (e e' : Exchange) (b : Bool) (n : ℕ) → is_empty r.concurrency ≡ false
      → value (get_resource_counter_key (limit_key g (default_hooks g cfg) cfg r)) e.stores ≡ pos n
      → n + 1 < two63
      → rate_limit_check g (default_hooks g cfg) cfg r e ≡ some (b, e')
      → (e'.response_state.cleanup_functions ≡ e.response_state.cleanup_functions ++ registered r b)
        × (value (get_resource_counter_key (limit_key g (default_hooks g cfg) cfg r)) e'.stores
            ≡ pos (n + length (registered r b)))
        × (b ≡ is_some (find_matching_limit (pos (n + 1)) r.concurrency))
  rate_limit_check-balance value laws r e e' b n limited_resource counted lt done =
      let key = limit_key g (default_hooks g cfg) cfg r in
      let checked = check_and_increment g.counters key r.concurrency e.stores in
      let (returned, count) =
        counts value laws key r.concurrency e.stores n limited_resource counted lt in
      let (a, c, s) =
        Returns-some (Accounts r (record e { stores = checked.1 }) (is_some checked.0))
          (limited-registered r checked.0 (record e { stores = checked.1 }))
          (sym (rate_limit_check-limited r e limited_resource) ∙ done) in
      let found = a ∙ ap is_some returned in
      (
        c,
        ap (value (get_resource_counter_key key)) s
            ∙ count
            ∙ placed r b (find_matching_limit (pos (n + 1)) r.concurrency) n found,
        found,
      )
