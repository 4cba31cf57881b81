-- ===== src/Config/Security/Laws.antt =====
-- When the interceptors of a security block deny a request, and what the transformation leaves.
use imposter_go.Common.{
  ℕ, ◌+◌, suc, String, ◌≡◌, refl, Bool, false, not, ◌&&◌, ◌||◌, Option, none, some, List, [], ◌∷◌,
  ◌==◌,
}
use imposter_go.Common.Int.{pos, ltb_ℤ}
use imposter_go.Common.Lists.{any, All}
use imposter_go.Common.Map.{Map}
use imposter_go.Config.{ExpressionMatchCondition, Interceptor, Resource, Config, SecurityConfig}
use imposter_go.Config.Match.{match_condition}
use imposter_go.Config.Security.{
  eval_condition, transform_resource, transform_resources, root_interceptors,
  transform_security_config,
}
use imposter_go.Exchange.{Request}
use imposter_go.External.{External}
use imposter_go.Matcher.Score.{calculate_match_score}

module _ (x : External) where
  not_met :
      (e : ExpressionMatchCondition) (prefix : String) (i : ℕ) (v : String)
      → match_condition x (eval_condition prefix i).match_condition v ≡ not (v == "met")
  unfolding match_condition eval_condition
  not_met e prefix i v = refl

  -- Whether a condition of a block with a prefix has not been met, where `evaluate` gives the value
  -- that is stored for a key.
  abbrev pub some_unmet : (String → String) → String → ℕ → ℕ → Bool
  some_unmet evaluate prefix i ℕ.zero = false
  some_unmet evaluate prefix i (suc n) =
      not (evaluate (eval_condition prefix i).expression == "met")
      || some_unmet evaluate prefix (i + 1) n

  abbrev holds : (String → String) → List ExpressionMatchCondition → Bool
  holds evaluate cs = any (λ e. match_condition x e.match_condition (evaluate e.expression)) cs

  -- Whether an interceptor matches a request and ends its processing.
  abbrev pub denies : (String → String) → Request → Map String → Interceptor → Bool
  denies evaluate r namespaces i =
      not i.continue
      && ltb_ℤ (pos 0) (calculate_match_score x evaluate r i.request_matcher namespaces).0

transform_resource-open :
    (r : Resource) (s : Option SecurityConfig) (counter : ℕ)
    → r.security ≡ s
    → (transform_resource r s counter).1.security ≡ none
unfolding transform_resource
transform_resource-open r none counter e = e
transform_resource-open r (some security) counter e = refl

transform_resources-open :
    (rs : List Resource) (counter : ℕ)
    → All (λ r. r.security ≡ none) (transform_resources rs counter).1
unfolding transform_resources
transform_resources-open [] counter = tt
transform_resources-open (r ∷ rs) counter = (
  transform_resource-open r r.security counter refl,
  transform_resources-open rs (transform_resource r r.security counter).2,
)

transform_resources-none :
    (rs : List Resource) (counter : ℕ)
    → All (λ r. r.security ≡ none) rs
    → transform_resources rs counter ≡ ([], rs, counter)
unfolding transform_resources transform_resource
transform_resources-none [] counter h = refl
transform_resources-none (r ∷ rs) counter h =
    rw (h.0) (rw (transform_resources-none rs counter h.1) refl)

-- A configuration that has been transformed has no security blocks left: a second transformation
-- changes nothing, the counter included.
transform_security_config-idempotent :
    (cfg : Config) (counter : ℕ)
    → transform_security_config
        (transform_security_config cfg counter).0
        (transform_security_config cfg counter).1
      ≡ transform_security_config cfg counter
unfolding transform_security_config root_interceptors
transform_security_config-idempotent cfg counter =
    rw
      (transform_resources-none (transform_resources cfg.resources counter).1
        (transform_resources cfg.resources counter).2
        (transform_resources-open cfg.resources counter))
      refl
