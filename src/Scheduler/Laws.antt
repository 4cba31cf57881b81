-- ===== src/Scheduler/Laws.antt =====
-- How often a schedule fires.
use mathlib.Core.Path.{subst}
use imposter_go.Common.{
  ℕ, ◌+◌, suc, zero, ◌≡◌, refl, ap, sym, ◌∙◌, true, false, List, [], ◌∷◌, arith,
}
use imposter_go.Common.Int.{ℤ, pos}
use imposter_go.Scheduler.{
  Event, timer_fired, cancelled, Run, fire_once, on_event, loop, run_schedule,
}

-- The timer's events before the first cancellation.
abbrev pub ticks : List Event → ℕ
ticks [] = 0
ticks (timer_fired ∷ events) = suc (ticks events)
ticks (cancelled ∷ events) = 0

abbrev pub times {ℓ} : {W : Type ℓ} → ℕ → (W → W) → W → W
times zero f w = w
times (suc n) f w = times n f (f w)

abbrev pub least : ℕ → ℕ → ℕ
least zero b = zero
least (suc a) zero = zero
least (suc a) (suc b) = suc (least a b)

-- The firings that a limit leaves of a number of ticks: all where the limit is 0.
abbrev pub firings : ℕ → ℕ → ℕ
firings zero ticked = ticked
firings (suc k) ticked = least ticked (suc k)

module _ {W : Type 0} (fire : W → W) where
  abbrev running : ℕ → W → Run W
  running count w = record { fire_count = count; returned = false; world = w }

  -- A loop that goes on from a number of firings has fired so many times more.
  abbrev Fires : ℕ → ℕ → W → Run W → Type 0
  Fires count more w r = (r.fire_count ≡ count + more) × (r.world ≡ times more fire w)

  loop-returned :
      (limit : ℤ) (events : List Event) (r : Run W)
      → r.returned ≡ true
      → loop limit fire events r ≡ r
  unfolding loop
  loop-returned limit [] r h = refl
  loop-returned limit (e ∷ events) r h =
      rw h (loop-returned limit events (record r { returned = true }) refl)

  Fires-suc :
      (count more : ℕ) (w : W) (r : Run W)
      → Fires (count + 1) more (fire w) r
      → Fires count (suc more) w r
  Fires-suc count more w r (n, world) = (n ∙ omega arith, world)

  fire_once-last :
      (n count : ℕ) (w : W)
      → n ≡ count + 1
      → (fire_once (pos n) fire (running count w)).returned ≡ true
  unfolding fire_once
  fire_once-last n count w e = ground arith

  fire_once-more :
      (n count k : ℕ) (w : W)
      → n ≡ count + suc (suc k)
      → fire_once (pos n) fire (running count w) ≡ running (count + 1) (fire w)
  unfolding fire_once
  fire_once-more n count k w e =
      ap (λ b. record { fire_count = count + 1; returned = b; world = fire w }) (ground arith)

  least_zero : (a : ℕ) → least a 0 ≡ 0
  least_zero zero = refl
  least_zero (suc a) = refl

  fired_one :
      (n count t : ℕ) (w : W)
      → Fires count (suc (least t 0)) w (fire_once (pos n) fire (running count w))
  unfolding fire_once
  fired_one n count t w = rw (least_zero t) (refl, refl)

  loop-limited :
      (n count k : ℕ) (events : List Event) (w : W)
      → n ≡ count + suc k
      → Fires count (least (ticks events) (suc k)) w (loop (pos n) fire events (running count w))
  unfolding loop on_event
  loop-limited n count k [] w e = (omega arith, refl)
  loop-limited n count k (cancelled ∷ events) w e =
      rw (loop-returned (pos n) events (record (running count w) { returned = true }) refl)
        (omega arith, refl)
  loop-limited n count zero (timer_fired ∷ events) w e =
      rw
        (loop-returned (pos n) events (fire_once (pos n) fire (running count w))
          (fire_once-last n count w e))
        (fired_one n count (ticks events) w)
  loop-limited n count (suc k) (timer_fired ∷ events) w e =
      subst (λ r. Fires count (suc (least (ticks events) (suc k))) w (loop (pos n) fire events r))
        (sym (fire_once-more n count k w e))
        (Fires-suc count (least (ticks events) (suc k)) w
          (loop (pos n) fire events (running (count + 1) (fire w)))
          (loop-limited n (count + 1) k events (fire w) (omega arith)))

  loop-unlimited :
      (count : ℕ) (events : List Event) (w : W)
      → Fires count (ticks events) w (loop (pos 0) fire events (running count w))
  unfolding loop on_event fire_once
  loop-unlimited count [] w = (omega arith, refl)
  loop-unlimited count (cancelled ∷ events) w =
      rw (loop-returned (pos 0) events (record (running count w) { returned = true }) refl)
        (omega arith, refl)
  loop-unlimited count (timer_fired ∷ events) w =
      Fires-suc count (ticks events) w (loop (pos 0) fire events (running (count + 1) (fire w)))
        (loop-unlimited (count + 1) events (fire w))

  plus_zero : (a : ℕ) → 0 + a ≡ a
  plus_zero a = omega arith

  -- A schedule with a limit fires once for each time that its timer fires before the cancellation,
  -- until the limit is reached; a limit of 0 is none. Each firing works on what the one before left.
  pub run_schedule-limit :
      (limit : ℕ) (events : List Event) (w : W)
      → ((run_schedule (pos limit) fire events w).fire_count ≡ firings limit (ticks events))
        × ((run_schedule (pos limit) fire events w).world
            ≡ times (firings limit (ticks events)) fire w)
  unfolding run_schedule
  run_schedule-limit zero events w =
      let (n, world) = loop-unlimited 0 events w in (n ∙ plus_zero (ticks events), world)
  run_schedule-limit (suc k) events w =
      let (n, world) = loop-limited (suc k) 0 k events w (omega arith) in
      (n ∙ plus_zero (least (ticks events) (suc k)), world)
