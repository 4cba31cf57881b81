-- ===== src/Config/Validate/Tests.antt =====
-- A configuration of the websocket plugin with a schedule on a connection and one of its own.
use imposter_go.Common.{◌≡◌, refl, none, some, [], ◌∷◌, true}
use imposter_go.Common.Int.{pos}
use imposter_go.Config.{
  Config, Resource, Schedule, Step, normalised_on, empty_matcher, empty_resource, empty_response,
}
use imposter_go.Config.Validate.{
  Parsers, validate, validate_upstreams, validate_resources, validate_web_socket_fields,
  validate_websocket, validate_connection_schedules, validate_schedule_trigger, check_duration,
  validate_interceptors, validate_schedules,
}
use imposter_go.Config.Validate.Laws.{ConfigIsValid, validate-ConfigIsValid}

abbrev pub parsers : Parsers
parsers = record {
  url_parse = λ s. some ("http", s);
  parse_duration = λ s. some (pos 30000000000);
  cron_parses = λ s. true;
}

abbrev script : Step
script = record {
  step_type = "script";
  lang = "js";
  script_code = "";
  file = "count.js";
  url = "";
  method = "";
  headers = [];
  body = "";
  capture = [];
}

abbrev greet : Schedule
greet = record {
  name = "greet";
  every = "30s";
  cron = "";
  limit = pos 3;
  response = some empty_response;
  responses = [];
  steps = [];
}

abbrev count : Schedule
count = record {
  name = "";
  every = "";
  cron = "0 * * * *";
  limit = pos 0;
  response = none;
  responses = [];
  steps = script ∷ [];
}

abbrev opened : Resource
opened = record {
  base = record empty_resource {
    request_matcher = record empty_matcher { path = "/ws"; on = "open" };
    schedule = greet ∷ [];
  };
  security = none;
}

abbrev pub websocket_config : Config
websocket_config = record {
  plugin = "websocket";
  resources = opened ∷ [];
  interceptors = [];
  schedules = count ∷ [];
  upstreams = ("backend", record { url = "localhost" }) ∷ [];
  system = none;
  security = none;
  cors = none;
  config_dir = "/opt/imposter";
}

pub websocket_config-valid : validate parsers websocket_config ≡ none
unfolding validate validate_upstreams validate_resources validate_web_socket_fields
    validate_websocket validate_connection_schedules validate_schedule_trigger check_duration
    validate_interceptors validate_schedules normalised_on
websocket_config-valid = refl

validate-ConfigIsValid_example : ConfigIsValid parsers websocket_config
validate-ConfigIsValid_example =
    validate-ConfigIsValid parsers websocket_config websocket_config-valid
