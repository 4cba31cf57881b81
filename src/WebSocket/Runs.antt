-- ===== src/WebSocket/Runs.antt =====
-- How often the schedules of a connection fire while it is open.
use imposter_go.Common.{ℕ, ◌+◌, ◌≡◌}
use imposter_go.Config.{Config}
use imposter_go.Pipeline.{Engines}
use imposter_go.Scheduler.{fire_once}
use imposter_go.WebSocket.Firing.{HasFired}
use imposter_go.WebSocket.{Connection, Running, run}

-- What each part does to the schedules.
module _ (g : Engines) (cfg : Config) where
  abbrev fired_once : Running → Connection → Running
  fired_once r c =
      let run =
        fire_once r.job.limit (λ c. c)
          (record { fire_count = r.fire_count; returned = r.returned; world = c }) in
      record { job = r.job; fire_count = run.fire_count; returned = run.returned }

  abbrev Next : ℕ → Running → Running × Connection → Type 0
  Next k r (r', c') = (r'.job ≡ r.job) × HasFired (k + 1) r'
