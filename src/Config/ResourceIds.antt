-- ===== src/Config/ResourceIds.antt =====
-- internal/config/resource_ids.go: the keys of resources for the rate limiter. The hash of the other
-- criteria of a matcher (SHA-256 over their fmt texts) is a function that is given.
pub mod Laws
mod Tests
use imposter_go.Common.{
  String, Bool, true, false, ◌&&◌, Option, none, some, List, [], ◌∷◌, ◌==◌, if◌then◌else◌, is_none,
}
use imposter_go.Common.Lists.{is_empty}
use imposter_go.Common.Text.{concat}
use imposter_go.Common.Text.Case.{to_upper}
use imposter_go.Config.{RequestMatcher, BaseResource, Resource, Interceptor, Config}

-- isEmptyMatcher
unfoldable pub is_empty_matcher : RequestMatcher → Bool
is_empty_matcher m =
    is_empty m.request_headers
    && is_empty m.query_params
    && is_empty m.form_params
    && is_empty m.path_params
    && is_none m.request_body.body_match_condition
    && is_empty m.request_body.all_of
    && is_empty m.request_body.any_of
    && is_empty m.all_of
    && is_empty m.any_of
    && m.soap_action == ""
    && m.binding == ""
    && m.on == ""

abbrev or_star : String → String
or_star s = if s == "" then "*" else s

unfoldable pub base_key : String → String → String
base_key method name = concat (to_upper (or_star method)) (concat ":" (or_star name))

module _ (generate_matcher_hash : RequestMatcher → String) where
  -- GenerateResourceKey
  unfoldable pub generate_resource_key : String → String → RequestMatcher → String
  generate_resource_key method name m =
      if is_empty_matcher m
      then base_key method name
      else concat (base_key method name) (concat ":" (generate_matcher_hash m))

  -- The name of a resource depends on the plugin.
  unfoldable pub with_resource_id : String → BaseResource → BaseResource
  with_resource_id plugin r = record r {
    resource_id =
        generate_resource_key r.method (if plugin == "soap" then r.operation else r.path)
          r.request_matcher;
  }

  unfoldable pub resources_with_ids : String → List Resource → List Resource
  resources_with_ids plugin [] = []
  resources_with_ids plugin (r ∷ rs) =
      record r { base = with_resource_id plugin r.base } ∷ resources_with_ids plugin rs

  unfoldable pub interceptors_with_ids : String → List Interceptor → List Interceptor
  interceptors_with_ids plugin [] = []
  interceptors_with_ids plugin (i ∷ is) =
      record i { base = with_resource_id plugin i.base } ∷ interceptors_with_ids plugin is

  -- PreCalculateResourceID
  unfoldable pub pre_calculate_resource_id : Config → Config
  pre_calculate_resource_id cfg = record cfg {
    resources = resources_with_ids cfg.plugin cfg.resources;
    interceptors = interceptors_with_ids cfg.plugin cfg.interceptors;
  }
