-- ===== src/Config.antt =====
-- internal/config/model.go and the types of internal/config/security.go: the configuration as
-- records, nil pointers as `none`, maps as association lists.
pub mod Loading
pub mod Match
pub mod ResourceIds
pub mod Security
pub mod Validate
use imposter_go.Common.{String, Bool, Option, none, some, List, [], ◌∷◌, ◌==◌, if◌then◌else◌}
use imposter_go.Common.Int.{ℤ, pos}
use imposter_go.Common.Map.{Map}
use imposter_go.Common.Value.{Value}

-- Milliseconds.
pub record Delay : Type 0 where
  pub exact : ℤ
  pub min : ℤ
  pub max : ℤ

pub record Response : Type 0 where
  pub content : String
  pub status_code : ℤ
  pub dir : String
  pub file : String
  pub fail : String
  pub delay : Delay
  pub headers : Map String
  pub template : Bool
  pub soap_fault : Bool
  pub example_name : String

pub record Upstream : Type 0 where
  pub url : String

pub record MatchCondition : Type 0 where
  pub value : String
  pub operator : String

-- The two implementations of the interface Matcher.
pub data Matcher : Type 0 where
  string_matcher : String → Matcher
  condition : MatchCondition → Matcher

pub record BodyMatchCondition : Type 0 where
  pub match_condition : MatchCondition
  pub open match_condition use *
  pub json_path : String
  pub x_path : String
  pub xml_namespaces : Map String

pub record RequestBody : Type 0 where
  pub body_match_condition : Option BodyMatchCondition
  pub all_of : List BodyMatchCondition
  pub any_of : List BodyMatchCondition

pub record ConcurrencyLimit : Type 0 where
  pub threshold : ℤ
  pub response : Option Response

pub record BodyCapture : Type 0 where
  pub json_path : String
  pub x_path : String
  pub xml_namespaces : Map String

pub record CaptureConfig : Type 0 where
  pub path_param : String
  pub query_param : String
  pub form_param : String
  pub request_header : String
  pub expression : String
  pub const : String
  pub request_body : BodyCapture

pub record Capture : Type 0 where
  pub enabled : Option Bool
  pub store : String
  pub key : CaptureConfig
  pub capture_config : CaptureConfig

pub record ExpressionMatchCondition : Type 0 where
  pub match_condition : MatchCondition
  pub expression : String

pub record RequestMatcher : Type 0 where
  pub method : String
  pub path : String
  pub query_params : Map Matcher
  pub request_headers : Map Matcher
  pub request_body : RequestBody
  pub form_params : Map Matcher
  pub path_params : Map Matcher
  pub all_of : List ExpressionMatchCondition
  pub any_of : List ExpressionMatchCondition
  pub operation : String
  pub soap_action : String
  pub binding : String
  pub on : String

abbrev pub web_socket_event_open : String
web_socket_event_open = "open"

abbrev pub web_socket_event_message : String
web_socket_event_message = "message"

abbrev pub web_socket_event_close : String
web_socket_event_close = "close"

-- NormalisedOn: the event of a resource, "message" by default.
unfoldable pub normalised_on : RequestMatcher → String
normalised_on m = if m.on == "" then web_socket_event_message else m.on

pub record Step : Type 0 where
  pub step_type : String
  pub lang : String
  pub script_code : String
  pub file : String
  pub url : String
  pub method : String
  pub headers : Map String
  pub body : String
  pub capture : Map Capture

pub record Schedule : Type 0 where
  pub name : String
  pub every : String
  pub cron : String
  pub limit : ℤ
  pub response : Option Response
  pub responses : List Response
  pub steps : List Step

pub record BaseResource : Type 0 where
  pub request_matcher : RequestMatcher
  pub open request_matcher use *
  pub capture : Map Capture
  pub steps : List Step
  pub response : Option Response
  pub responses : List Response
  pub concurrency : List ConcurrencyLimit
  pub log : String
  pub passthrough : String
  pub schedule : List Schedule
  pub runtime_generated : Bool
  pub resource_id : String

-- effectiveResponses: the list where there is one, else the single response.
unfoldable pub effective_responses : Option Response → List Response → List Response
effective_responses single (r ∷ rs) = r ∷ rs
effective_responses none [] = []
effective_responses (some r) [] = r ∷ []

pub record SecurityCondition : Type 0 where
  pub effect : String
  pub query_params : Map Matcher
  pub form_params : Map Matcher
  pub request_headers : Map Matcher

pub record SecurityConfig : Type 0 where
  pub default_effect : String
  pub conditions : List SecurityCondition

pub record Resource : Type 0 where
  pub base : BaseResource
  pub open base use *
  pub security : Option SecurityConfig

pub record Interceptor : Type 0 where
  pub base : BaseResource
  pub open base use *
  pub continue : Bool

pub record StoreDefinition : Type 0 where
  pub preload_file : String
  pub preload_values : Map Value

pub record System : Type 0 where
  pub stores : Map StoreDefinition
  pub xml_namespaces : Map String

-- What allowOrigins may hold: nothing that is read, a text, texts, or values that may be texts.
pub data AllowOrigins : Type 0 where
  unset : AllowOrigins
  single : String → AllowOrigins
  strings : List String → AllowOrigins
  values : List Value → AllowOrigins

pub record CorsConfig : Type 0 where
  pub allow_origins : AllowOrigins
  pub allow_headers : List String
  pub allow_methods : List String
  pub max_age : ℤ
  pub allow_credentials : Bool

pub record Config : Type 0 where
  pub plugin : String
  pub resources : List Resource
  pub interceptors : List Interceptor
  pub schedules : List Schedule
  pub upstreams : Map Upstream
  pub system : Option System
  pub security : Option SecurityConfig
  pub cors : Option CorsConfig
  pub config_dir : String

-- Zero values.
abbrev pub no_delay : Delay
no_delay = record { exact = pos 0; min = pos 0; max = pos 0 }

abbrev pub empty_response : Response
empty_response = record {
  content = "";
  status_code = pos 0;
  dir = "";
  file = "";
  fail = "";
  delay = no_delay;
  headers = [];
  template = Bool.false;
  soap_fault = Bool.false;
  example_name = "";
}

abbrev pub empty_matcher : RequestMatcher
empty_matcher = record {
  method = "";
  path = "";
  query_params = [];
  request_headers = [];
  request_body = record { body_match_condition = none; all_of = []; any_of = [] };
  form_params = [];
  path_params = [];
  all_of = [];
  any_of = [];
  operation = "";
  soap_action = "";
  binding = "";
  on = "";
}

abbrev pub empty_resource : BaseResource
empty_resource = record {
  request_matcher = empty_matcher;
  capture = [];
  steps = [];
  response = none;
  responses = [];
  concurrency = [];
  log = "";
  passthrough = "";
  schedule = [];
  runtime_generated = Bool.false;
  resource_id = "";
}

abbrev pub empty_capture_config : CaptureConfig
empty_capture_config = record {
  path_param = "";
  query_param = "";
  form_param = "";
  request_header = "";
  expression = "";
  const = "";
  request_body = record { json_path = ""; x_path = ""; xml_namespaces = [] };
}
