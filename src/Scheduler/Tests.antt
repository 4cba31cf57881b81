-- ===== src/Scheduler/Tests.antt =====
-- A schedule with a limit of two.
use imposter_go.Common.{ℕ, suc, ◌≡◌, List, [], ◌∷◌}
use imposter_go.Common.Int.{pos}
use imposter_go.Scheduler.{Event, timer_fired, cancelled, run_schedule}
use imposter_go.Scheduler.Laws.{ticks, times, firings, run_schedule-limit}

abbrev count : ℕ → ℕ
count n = suc n

abbrev three_ticks : List Event
three_ticks = timer_fired ∷ timer_fired ∷ timer_fired ∷ cancelled ∷ []

run_schedule-limit_example :
    ((run_schedule (pos 2) count three_ticks 0).fire_count ≡ firings 2 (ticks three_ticks))
    × ((run_schedule (pos 2) count three_ticks 0).world
        ≡ times (firings 2 (ticks three_ticks)) count 0)
run_schedule-limit_example = run_schedule-limit count 2 three_ticks 0
