-- ===== src/Scheduler/Start/Laws.antt =====
-- The schedules of configurations that have passed validation are all registered.
use mathlib.Core.List.{map}
use imposter_go.Common.{
  ℕ, ◌+◌, String, ◌≡◌, refl, sym, ap, ◌∙◌, true, none, some, List, [], ◌∷◌, ◌++◌, if◌then◌else◌,
  inl, inr, arith, eq_iff,
}
use imposter_go.Common.Int.{pos, ◌<ℤ◌}
use imposter_go.Common.Lists.{All, is_empty}
use imposter_go.Config.{Config, Schedule}
use imposter_go.Config.Validate.{Parsers, validate}
use imposter_go.Config.Validate.Laws.{HasTrigger, ScheduleIsValid, validate-ConfigIsValid}
use imposter_go.Scheduler.{effective_limit}
use imposter_go.Scheduler.Start.{
  Trigger, interval, cron, trigger_func, Job, jobs_of, all_jobs, start,
}

abbrev pub entry_of : Job → Schedule
entry_of job = job.entry

-- The schedules of the configurations, in their order.
abbrev pub all_schedules : List Config → List Schedule
all_schedules [] = []
all_schedules (cfg ∷ more) = cfg.schedules ++ all_schedules more

-- The trigger of a job is that of its schedule: its interval, which is positive, or its cron expression,
-- which can be read. Whether such an expression ever fires is another matter.
abbrev pub IsTriggered : Parsers → Schedule → Trigger → Type 0
IsTriggered p s (interval d) = (p.parse_duration s.every ≡ some d) × (pos 0 <ℤ d) × (s.cron ≡ "")
IsTriggered p s (cron expression) =
    (expression ≡ s.cron) × (p.cron_parses s.cron ≡ true) × (s.every ≡ "")

-- What is registered for a schedule.
abbrev pub IsScheduled : Parsers → String → Job → Type 0
IsScheduled p limit_env job =
    IsTriggered p job.entry job.trigger × (job.limit ≡ effective_limit limit_env job.entry)

trigger_func-HasTrigger :
    (p : Parsers) (s : Schedule)
    → HasTrigger p s
    → (t : Trigger) × (trigger_func p s ≡ some t) × IsTriggered p s t
unfolding trigger_func
trigger_func-HasTrigger p s (inl (no_cron, (d, parsed, positive), given), limited) =
    (interval d, ground arith, (parsed, positive, no_cron))
trigger_func-HasTrigger p s (inr (no_every, parses, given), limited) =
    (cron s.cron, ground (arith, eq_iff s.every ""), (refl, parses, no_every))

is_empty-map : (jobs : List Job) → is_empty (map entry_of jobs) ≡ is_empty jobs
is_empty-map [] = refl
is_empty-map (j ∷ js) = refl

All-append : (P : Job → Type 0) (xs ys : List Job) → All P xs → All P ys → All P (xs ++ ys)
All-append P [] ys h k = k
All-append P (x ∷ xs) ys (px, h) k = (px, All-append P xs ys h k)

map-append : (xs ys : List Job) → map entry_of (xs ++ ys) ≡ map entry_of xs ++ map entry_of ys
map-append [] ys = refl
map-append (x ∷ xs) ys = ap (λ rest. entry_of x ∷ rest) (map-append xs ys)

module _ (p : Parsers) (limit_env : String) where
  jobs_of-valid :
      (cfg : Config) (i : ℕ) (ss : List Schedule)
      → All (ScheduleIsValid p) ss
      → (map entry_of (jobs_of p limit_env cfg i ss) ≡ ss)
        × All (IsScheduled p limit_env) (jobs_of p limit_env cfg i ss)
  unfolding jobs_of
  jobs_of-valid cfg i [] valid = (refl, tt)
  jobs_of-valid cfg i (s ∷ ss) ((trigger, steps, response, responses), valid) =
      let (t, found, triggered) = trigger_func-HasTrigger p s trigger in
      let (same, all) = jobs_of-valid cfg (i + 1) ss valid in
      rw (found, jobs_of) (ap (λ rest. s ∷ rest) same, ((triggered, refl), all))

  all_jobs-valid :
      (configs : List Config)
      → All (λ cfg. validate p cfg ≡ none) configs
      → (map entry_of (all_jobs p limit_env configs) ≡ all_schedules configs)
        × All (IsScheduled p limit_env) (all_jobs p limit_env configs)
  unfolding all_jobs
  all_jobs-valid [] valid = (refl, tt)
  all_jobs-valid (cfg ∷ configs) (e, valid) =
      let (same, all) =
        jobs_of-valid cfg 0 cfg.schedules (validate-ConfigIsValid p cfg e).schedules in
      let (same', all') = all_jobs-valid configs valid in
      (
        map-append (jobs_of p limit_env cfg 0 cfg.schedules) (all_jobs p limit_env configs)
            ∙ ap (λ xs. xs ++ map entry_of (all_jobs p limit_env configs)) same
            ∙ ap (λ xs. cfg.schedules ++ xs) same',
        All-append (IsScheduled p limit_env) (jobs_of p limit_env cfg 0 cfg.schedules)
            (all_jobs p limit_env configs) all all',
      )

  -- Where every configuration has passed validation and no scheduler runs, Start registers each of their
  -- schedules once, in their order, with its own limit and trigger: its interval, which is positive, or its
  -- cron expression, which can be read (and may never fire). It starts none where there are none.
  pub start-valid :
      (configs : List Config)
      → All (λ cfg. validate p cfg ≡ none) configs
      → (jobs : List Job) × (start p limit_env configs none
          ≡ (if is_empty (all_schedules configs) then none else some jobs))
        × (map entry_of jobs ≡ all_schedules configs)
        × All (IsScheduled p limit_env) jobs
  unfolding start
  start-valid configs valid =
      let jobs = all_jobs p limit_env configs in
      let (same, all) = all_jobs-valid configs valid in
      (
        jobs,
        ap (λ b. if b then none else some jobs) (sym (is_empty-map jobs) ∙ ap is_empty same),
        same,
        all,
      )
