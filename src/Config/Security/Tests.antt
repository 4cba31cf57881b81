-- ===== src/Config/Security/Tests.antt =====
-- A security block with two conditions, of which a request meets one.
use imposter_go.Common.{String, none, some, [], ◌∷◌, ◌==◌, if◌then◌else◌}
use imposter_go.Config.{Config, SecurityConfig, string_matcher, empty_resource}

abbrev first_met : String → String
first_met expression = if expression == "${stores.request.security_condition1}" then "met" else ""

abbrev block : SecurityConfig
block = record {
  default_effect = "Deny";
  conditions =
      record {
        effect = "Permit";
        query_params = [];
        form_params = [];
        request_headers = ("Authorization", string_matcher "secret") ∷ [];
      }
      ∷ [];
}

abbrev secured : Config
secured = record {
  plugin = "rest";
  resources = record { base = empty_resource; security = some block } ∷ [];
  interceptors = [];
  schedules = [];
  upstreams = [];
  system = none;
  security = some block;
  cors = none;
  config_dir = "/etc/imposter";
}
