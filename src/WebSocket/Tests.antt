-- ===== src/WebSocket/Tests.antt =====
-- A connection to an echo of two messages with a greeting.
use mathlib.Core.List.{map}
use imposter_go.Common.{String, ◌≡◌, refl, true, ◌==◌, some, none, List, [], ◌∷◌}
use imposter_go.Common.Int.{pos}
use imposter_go.Common.Lists.{All}
use imposter_go.Common.Maybe.{Returns}
use imposter_go.Config.{Config, Resource, Schedule, empty_matcher, empty_resource, empty_response}
use imposter_go.Config.Validate.Tests.{parsers}
use imposter_go.Exchange.{Request}
use imposter_go.Exchange.Context.{Exchange}
use imposter_go.Pipeline.{match_all}
use imposter_go.Pipeline.Tests.{engines}
use imposter_go.Response.Tests.{exchange}
use imposter_go.Store.{init_stores}
use imposter_go.WebSocket.{
  Connection, Live, Occurrence, text_message, other_message, timer, event_hooks, run_event_pipeline,
  open_connection, run,
}
use imposter_go.WebSocket.Upgrade.{Upgrader}
use imposter_go.WebSocket.Frames.{WritesNoFrames, run_event_pipeline-close}
use imposter_go.WebSocket.Matching.{listening, IsScored, match_all-listening}

abbrev quiet : WritesNoFrames engines
quiet = record { steps = λ ss e m. refl; proxies = λ e name u. refl }

abbrev ping : Schedule
ping = record {
  name = "ping";
  every = "30s";
  cron = "";
  limit = pos 1;
  response = some (record empty_response { content = "ping" });
  responses = [];
  steps = [];
}

abbrev answers : String → String → List Schedule → Resource
answers event content schedule = record {
  base = record empty_resource {
    request_matcher = record empty_matcher { path = "/ws"; on = event };
    response = some (record empty_response { content = content });
    schedule = schedule;
  };
  security = none;
}

abbrev echo : Config
echo = record {
  plugin = "websocket";
  resources =
      answers "open" "welcome" (ping ∷ [])
      ∷ answers "message" "echo" []
      ∷ answers "close" "bye" []
      ∷ [];
  interceptors = [];
  schedules = [];
  upstreams = [];
  system = none;
  security = none;
  cors = none;
  config_dir = "/etc/imposter";
}

abbrev upgrade : Request
upgrade = record exchange.request { path = "/ws" }

abbrev connected : Connection
connected = record {
  upgrade = upgrade;
  stores = record { shared_provider = init_stores; request_provider = init_stores };
  frames = [];
}

-- The schedule fires once, for the limit of one.
abbrev occurrences : List Occurrence
occurrences = text_message "a" ∷ timer 0 ∷ other_message ∷ timer 0 ∷ text_message "b" ∷ []

abbrev opened : Live
opened = elim (open_connection engines echo parsers "" connected) [
  | none ↦ record { connection = connected; running = [] }
  | some l ↦ l
]

abbrev ended : Live
ended = elim (run engines echo parsers "" occurrences connected) [
  | none ↦ record { connection = connected; running = [] }
  | some l ↦ l
]

run_event_pipeline-close_example :
    Returns
      (λ r. r.0.frames ≡ connected.frames)
      (run_event_pipeline engines echo "close" "" connected)
run_event_pipeline-close_example = run_event_pipeline-close engines echo quiet "" connected

match_all-listening_example :
    (map
        (λ m. m.resource)
        (match_all engines (event_hooks engines echo "open") echo echo.resources exchange)
      ≡ listening engines echo "open" exchange echo.resources)
    × All
        (IsScored engines echo "open" exchange)
        (match_all engines (event_hooks engines echo "open") echo echo.resources exchange)
match_all-listening_example = match_all-listening engines echo "open" exchange echo.resources

abbrev upgrader : Upgrader
upgrader = record { is_web_socket_upgrade = λ r. r.path == "/ws"; upgrade = λ r. true }

abbrev requested : Exchange
requested = record exchange { request = upgrade }
