-- ===== src/Config/ResourceIds/Tests.antt =====
-- Keys of a resource without criteria, and of an interceptor with a header.
use imposter_go.Common.{String, ◌≡◌, refl, false, none, [], ◌∷◌}
use imposter_go.Config.{Config, RequestMatcher, empty_resource, empty_matcher, string_matcher}
use imposter_go.Config.ResourceIds.{generate_resource_key, is_empty_matcher, base_key}
use imposter_go.Common.Text.Case.{to_upper}

abbrev hash : RequestMatcher → String
hash m = "01234567"

abbrev plain : Config
plain = record {
  plugin = "rest";
  resources = record { base = empty_resource; security = none } ∷ [];
  interceptors =
      record {
        base = record empty_resource {
          request_matcher = record empty_matcher {
            method = "get";
            request_headers = ("X-Id", string_matcher "7") ∷ [];
          };
        };
        continue = false;
      }
      ∷ [];
  schedules = [];
  upstreams = [];
  system = none;
  security = none;
  cors = none;
  config_dir = "/etc/imposter";
}

hashed :
    generate_resource_key hash "get" "/users"
      (record empty_matcher { request_headers = ("X-Id", string_matcher "7") ∷ [] })
    ≡ "GET:/users:01234567"
unfolding generate_resource_key is_empty_matcher base_key to_upper
hashed = refl
