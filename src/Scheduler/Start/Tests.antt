-- ===== src/Scheduler/Start/Tests.antt =====
-- The schedules of one configuration.
use mathlib.Core.List.{map}
use imposter_go.Common.{◌≡◌, none, some, List, [], ◌∷◌, if◌then◌else◌}
use imposter_go.Common.Lists.{All, is_empty}
use imposter_go.Config.{Config}
use imposter_go.Config.Validate.Tests.{parsers, websocket_config, websocket_config-valid}
use imposter_go.Scheduler.Start.{Job, start}
use imposter_go.Scheduler.Start.Laws.{entry_of, all_schedules, IsScheduled, start-valid}

abbrev configs : List Config
configs = websocket_config ∷ []

start-valid_example :
    (jobs : List Job) × (start parsers "" configs none
      ≡ (if is_empty (all_schedules configs) then none else some jobs))
    × (map entry_of jobs ≡ all_schedules configs)
    × All (IsScheduled parsers "") jobs
start-valid_example = start-valid parsers "" configs (websocket_config-valid, tt)
