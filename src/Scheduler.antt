-- ===== src/Scheduler.antt =====
-- internal/scheduler/runner.go: how often a schedule fires. The times of the timer and the work of a
-- firing are given from outside: the loop waits for the timer or for the cancellation of its context.
pub mod Laws
pub mod Start
mod Tests
use imposter_go.Common.{
  ℕ, ◌+◌, String, Bool, true, false, not, ◌&&◌, Option, none, some, List, [], ◌∷◌, ◌==◌,
  if◌then◌else◌,
}
use imposter_go.Common.Int.{ℤ, pos, ltb_ℤ}
use imposter_go.Common.Text.Number.{parse_int}
use imposter_go.Config.{Schedule}

-- globalDefaultLimit, of the value of IMPOSTER_SCHEDULE_LIMIT ("" when unset).
unfoldable pub global_default_limit : String → ℤ
global_default_limit raw = if raw == "" then pos 0 else elim (parse_int raw) [
  | none ↦ pos 0
  | some parsed ↦ if ltb_ℤ parsed (pos 0) then pos 0 else parsed
]

-- EffectiveLimit
unfoldable pub effective_limit : String → Schedule → ℤ
effective_limit raw s = if ltb_ℤ (pos 0) s.limit then s.limit else global_default_limit raw

-- What the select statement of the loop takes next.
pub data Event : Type 0 where
  timer_fired cancelled : Event

-- The firings so far, whether the loop has returned, and what the firings have left.
pub record Run (W : Type 0) : Type 0 where
  pub fire_count : ℕ
  pub returned : Bool
  pub world : W

module _ {W : Type 0} (limit : ℤ) (fire : W → W) where
  unfoldable pub fire_once : Run W → Run W
  fire_once r =
      let count = r.fire_count + 1 in
      record {
        fire_count = count;
        returned = ltb_ℤ (pos 0) limit && not (ltb_ℤ (pos count) limit);
        world = fire r.world;
      }

  unfoldable pub on_event : Event → Run W → Run W
  on_event timer_fired r = fire_once r
  on_event cancelled r = record r { returned = true }

  -- The loop of RunSchedule, which takes no event once it has returned.
  unfoldable pub loop : List Event → Run W → Run W
  loop [] r = r
  loop (e ∷ events) r = loop events (if r.returned then r else on_event e r)

  unfoldable pub run_schedule : List Event → W → Run W
  run_schedule events w = loop events (record { fire_count = 0; returned = false; world = w })
