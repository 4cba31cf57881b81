-- ===== src/Config/Loading/Tests.antt =====
-- Two websocket configurations with another one between them.
use imposter_go.Common.{◌≤◌, ◌≡◌, none, List, [], ◌∷◌}
use imposter_go.Common.Lists.{length}
use imposter_go.Config.{Config, Resource, empty_matcher, empty_resource}
use imposter_go.Config.Loading.{coalesce_web_socket_configs}
use imposter_go.Config.Loading.Laws.{
  websockets, others, all_resources, coalesce_web_socket_configs_lem,
}

abbrev resource : Resource
resource = record {
  base = record empty_resource { request_matcher = record empty_matcher { path = "/ws" } };
  security = none;
}

abbrev websocket : Config
websocket = record {
  plugin = "websocket";
  resources = resource ∷ [];
  interceptors = [];
  schedules = [];
  upstreams = [];
  system = none;
  security = none;
  cors = none;
  config_dir = "";
}

abbrev rest : Config
rest = record websocket { plugin = "rest"; resources = [] }

abbrev three : List Config
three = websocket ∷ rest ∷ websocket ∷ []

coalesce_web_socket_configs_lem_example :
    (length (websockets (coalesce_web_socket_configs three)) ≤ 1)
    × (all_resources (websockets (coalesce_web_socket_configs three))
        ≡ all_resources (websockets three))
    × (others (coalesce_web_socket_configs three) ≡ others three)
coalesce_web_socket_configs_lem_example = coalesce_web_socket_configs_lem three
