-- ===== src/Scheduler/Start.antt =====
-- internal/scheduler/scheduler.go and the triggers of runner.go: the schedules that Start registers, and
-- one firing. Each registered schedule runs by itself, as RunSchedule does.
pub mod Laws
mod Tests
use imposter_go.Common.{
  ℕ, ◌+◌, String, Bool, true, false, Option, none, some, List, [], ◌∷◌, ◌++◌, ◌==◌, if◌then◌else◌,
}
use imposter_go.Common.Int.{ℤ}
use imposter_go.Common.Lists.{is_empty}
use imposter_go.Common.Maybe.{◌>>=◌}
use imposter_go.Config.{Config, Schedule, empty_matcher}
use imposter_go.Config.Validate.{Parsers, ScheduleDesc, schedule_desc}
use imposter_go.Exchange.{Request, new_response_state}
use imposter_go.Exchange.Context.{Exchange}
use imposter_go.Pipeline.{Engines}
use imposter_go.Scheduler.{effective_limit}
use imposter_go.Store.Handle.{Stores, new_request_store, begin_request}

-- How a NextFireFunc finds the next time: after an interval in nanoseconds, or by a cron expression.
pub data Trigger : Type 0 where
  interval : ℤ → Trigger
  cron : String → Trigger

-- TriggerFunc
unfoldable pub trigger_func : Parsers → Schedule → Option Trigger
trigger_func p s =
    if s.every == ""
    then if p.cron_parses s.cron then some (cron s.cron) else none
    else elim (p.parse_duration s.every) [ none ↦ none | some d ↦ some (interval d) ]

-- What Start gives to the goroutine of a schedule. A name is that of the schedule or its index.
pub record Job : Type 0 where
  pub entry : Schedule
  pub config : Config
  pub name : ScheduleDesc
  pub trigger : Trigger
  pub limit : ℤ

module _ (p : Parsers) (limit_env : String) where
  unfoldable pub jobs_of : Config → ℕ → List Schedule → List Job
  jobs_of cfg i [] = []
  jobs_of cfg i (s ∷ more) =
      let rest = jobs_of cfg (i + 1) more in
      elim (trigger_func p s) [
        | none ↦ rest
        | some t ↦
            record {
              entry = s;
              config = cfg;
              name = schedule_desc s i;
              trigger = t;
              limit = effective_limit limit_env s;
            }
            ∷ rest
      ]

  unfoldable pub all_jobs : List Config → List Job
  all_jobs [] = []
  all_jobs (cfg ∷ more) = jobs_of cfg 0 cfg.schedules ++ all_jobs more

  -- Start, on the scheduler that is running, if any.
  unfoldable pub start : List Config → Option (List Job) → Option (List Job)
  start configs (some running) = some running
  start configs none = let jobs = all_jobs configs in if is_empty jobs then none else some jobs

-- Stop
unfoldable pub stop : Option (List Job) → Option (List Job)
stop running = none

abbrev synthetic_request : Request
synthetic_request = record {
  method = "GET";
  path = "/";
  headers = [];
  query = [];
  form = none;
  body = "";
}

-- fireSchedule: the stores that the steps leave, whether they fail or not. None is a panic.
unfoldable pub fire_schedule : Engines → Schedule → Stores → Option Stores
fire_schedule g s stores = do
  let e : Exchange = record {
    request = synthetic_request;
    stores = begin_request stores;
    request_store = some new_request_store;
    response_state = new_response_state;
    sleeps = [];
    frames = [];
  }
  result ← g.run_steps s.steps e empty_matcher
  some result.0.stores
