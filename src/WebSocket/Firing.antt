-- ===== src/WebSocket/Firing.antt =====
-- How often a runner of a schedule has fired after a number of timers.
use mathlib.Core.Path.{subst}
use imposter_go.Common.{
  ℕ, suc, ◌+◌, ◌≡◌, refl, true, false, List, [], ◌∷◌, arith, ◌⊎◌, inl, inr, Bool-cases,
}
use imposter_go.Common.Int.{pos, ltb_ℤ}
use imposter_go.Scheduler.Start.{Job}
use imposter_go.WebSocket.{Running, Occurrence, text_message, other_message, timer, begin}

-- How often the timer of the schedule with an index is among what a connection gets.
abbrev pub tick : ℕ → ℕ → ℕ
tick ℕ.zero ℕ.zero = 1
tick ℕ.zero (suc i) = 0
tick (suc n) ℕ.zero = 0
tick (suc n) (suc i) = tick n i

abbrev pub ticks : Occurrence → ℕ → ℕ
ticks (timer n) i = tick n i
ticks (text_message body) i = 0
ticks other_message i = 0

abbrev pub timers : List Occurrence → ℕ → ℕ
timers [] i = 0
timers (o ∷ os) i = timers os i + ticks o i

-- After `k` timers: a schedule without a limit has fired for each; one with a limit has fired for each
-- while they were fewer than the limit, and as often as the limit says from then on.
abbrev pub HasFired : ℕ → Running → Type 0
HasFired k r =
    ((ltb_ℤ (pos 0) r.job.limit ≡ false) × (r.fire_count ≡ k) × (r.returned ≡ false))
    ⊎ ((ltb_ℤ (pos 0) r.job.limit ≡ true)
        × (((ltb_ℤ (pos k) r.job.limit ≡ true) × (r.fire_count ≡ k) × (r.returned ≡ false))
            ⊎ ((ltb_ℤ (pos k) r.job.limit ≡ false)
                × (pos r.fire_count ≡ r.job.limit)
                × (r.returned ≡ true))))

abbrev pub jobs : List Running → List Job
jobs [] = []
jobs (r ∷ rs) = r.job ∷ jobs rs

-- The runners of jobs, in their order, each after as many timers as its index has got.
abbrev pub Fires : (ℕ → ℕ) → List Job → List Running → Type 0
Fires counts [] [] = Unit
Fires counts (j ∷ js) (r ∷ rs) =
    (r.job ≡ j) × HasFired (counts 0) r × Fires (λ i. counts (suc i)) js rs
Fires counts [] (r ∷ rs) = ⊥
Fires counts (j ∷ js) [] = ⊥

pub Fires-same :
    (counts counts' : ℕ → ℕ) (js : List Job) (rs : List Running)
    → ((i : ℕ) → counts i ≡ counts' i)
    → Fires counts js rs
    → Fires counts' js rs
Fires-same counts counts' [] [] e h = tt
Fires-same counts counts' [] (r ∷ rs) e h = elim h [ ]
Fires-same counts counts' (j ∷ js) [] e h = elim h [ ]
Fires-same counts counts' (j ∷ js) (r ∷ rs) e (same, k, h) = (
  same,
  subst (λ n. HasFired n r) (e 0) k,
  Fires-same (λ i. counts (suc i)) (λ i. counts' (suc i)) js rs (λ i. e (suc i)) h,
)

pub begin-Fires : (js : List Job) → Fires (λ i. 0) (jobs (begin js)) (begin js)
begin-Fires [] = tt
begin-Fires (job ∷ js) = (
  refl,
  elim (Bool-cases (ltb_ℤ (pos 0) job.limit)) [
    | inl limited ↦ inr (limited, inl (limited, refl, refl))
    | inr unlimited ↦ inl (unlimited, refl, refl)
  ],
  begin-Fires js,
)

-- A runner that has returned stays as it is.
pub returned-HasFired :
    (k : ℕ) (r : Running) → r.returned ≡ true → HasFired k r → HasFired (k + 1) r
returned-HasFired k r returned (inl (unlimited, fired, going_on)) = absurd (ground arith)
returned-HasFired k r returned (inr (limited, inl (less, fired, going_on))) = absurd (ground arith)
returned-HasFired k r returned (inr (limited, inr (enough, fired, ended))) =
    inr (limited, inr (ground arith, fired, ended))
