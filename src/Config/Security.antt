-- ===== src/Config/Security.antt =====
-- internal/config/security.go: security blocks turned into interceptors. The counter of the source
-- (`resourceCounter`) is passed on.
pub mod Laws
mod Tests
use imposter_go.Common.{
  ℕ, ◌+◌, suc, String, Bool, true, false, Option, none, some, List, [], ◌∷◌, ◌++◌, ◌==◌,
  if◌then◌else◌,
}
use imposter_go.Common.Int.{ℤ, pos}
use imposter_go.Common.Lists.{length}
use imposter_go.Common.Map.{Map, copy_into}
use imposter_go.Common.Text.{concat}
use imposter_go.Common.Text.Case.{equal_fold}
use imposter_go.Common.Text.Number.{itoa}
use imposter_go.Config.{
  Interceptor, RequestMatcher, SecurityCondition, SecurityConfig, ExpressionMatchCondition,
  Resource, Config, empty_matcher, empty_resource, empty_response, empty_capture_config,
}

-- The key of the condition at an index.
unfoldable pub condition_key : String → ℕ → String
condition_key prefix i = concat prefix (concat "security_condition" (itoa (i + 1)))

-- The interceptor of a condition: it captures that the condition is met, and continues.
unfoldable pub condition_interceptor : String → ℕ → SecurityCondition → Interceptor
condition_interceptor prefix i c = record {
  base = record empty_resource {
    request_matcher = record empty_matcher {
      request_headers = copy_into c.request_headers [];
      query_params = copy_into c.query_params [];
      form_params = copy_into c.form_params [];
    };
    capture =
        (
          condition_key prefix i,
          record {
            enabled = none;
            store = "request";
            key = empty_capture_config;
            capture_config = record empty_capture_config { const = "met" };
          },
        )
        ∷ [];
  };
  continue = true;
}

-- buildSecurityEvalConditions, from an index on: the conditions that are not met.
unfoldable pub eval_condition : String → ℕ → ExpressionMatchCondition
eval_condition prefix i = record {
  match_condition = record { value = "met"; operator = "NotEqualTo" };
  expression = concat "${stores.request." (concat (condition_key prefix i) "}");
}

unfoldable pub eval_conditions_from : String → ℕ → ℕ → List ExpressionMatchCondition
eval_conditions_from prefix i ℕ.zero = []
eval_conditions_from prefix i (suc n) =
    eval_condition prefix i ∷ eval_conditions_from prefix (i + 1) n

unfoldable pub build_security_eval_conditions : ℕ → String → List ExpressionMatchCondition
build_security_eval_conditions num_conditions prefix = eval_conditions_from prefix 0 num_conditions

unfoldable pub deny_interceptor : ℕ → String → Interceptor
deny_interceptor num_conditions prefix = record {
  base = record empty_resource {
    request_matcher = record empty_matcher {
      any_of = build_security_eval_conditions num_conditions prefix;
    };
    response = some (record empty_response {
      status_code = pos 401;
      content = "Unauthorised";
      headers = ("Content-Type", "text/plain") ∷ [];
    });
  };
  continue = false;
}

unfoldable pub condition_interceptors : String → ℕ → List SecurityCondition → List Interceptor
condition_interceptors prefix i [] = []
condition_interceptors prefix i (c ∷ cs) =
    condition_interceptor prefix i c ∷ condition_interceptors prefix (i + 1) cs

-- transformSecurityBlock
unfoldable pub transform_security_block : SecurityConfig → String → List Interceptor
transform_security_block security prefix =
    condition_interceptors prefix 0 security.conditions
    ++ (if equal_fold security.default_effect "Deny"
        then deny_interceptor (length security.conditions) prefix ∷ []
        else [])

-- The loop over the resources: their interceptors, the resources without their blocks, and the
-- counter.
unfoldable pub resource_prefix : ℕ → String
resource_prefix counter = concat "resource" (concat (itoa (counter + 1)) "_")

unfoldable pub transform_resource :
    Resource → Option SecurityConfig → ℕ → List Interceptor × Resource × ℕ
transform_resource r none counter = ([], r, counter)
transform_resource r (some security) counter = (
  transform_security_block security (resource_prefix counter),
  record r { security = none },
  counter + 1,
)

unfoldable pub transform_resources : List Resource → ℕ → List Interceptor × List Resource × ℕ
transform_resources [] counter = ([], [], counter)
transform_resources (r ∷ rs) counter =
    let (is, r', next) = transform_resource r r.security counter in
    let (is', rs', counter') = transform_resources rs next in (is ++ is', r' ∷ rs', counter')

-- transformSecurityConfig
unfoldable pub root_interceptors : Option SecurityConfig → List Interceptor
root_interceptors none = []
root_interceptors (some security) = transform_security_block security ""

unfoldable pub transform_security_config : Config → ℕ → Config × ℕ
transform_security_config cfg counter =
    let (is, resources, counter') = transform_resources cfg.resources counter in
    (
      record cfg {
        security = none;
        resources = resources;
        interceptors = (root_interceptors cfg.security ++ is) ++ cfg.interceptors;
      },
      counter',
    )
