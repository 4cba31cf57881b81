-- ===== src/Config/Validate.antt =====
-- internal/config/validate.go: what keeps a configuration from being started. Warnings are left out.
pub mod Laws
pub mod Tests
use imposter_go.Common.{
  ℕ, suc, ◌+◌, String, Bool, true, false, not, ◌&&◌, ◌||◌, Option, none, some, List, [], ◌∷◌, ◌==◌,
  if◌then◌else◌, is_some, is_none,
}
use imposter_go.Common.Int.{ℤ, pos, ltb_ℤ}
use imposter_go.Common.Lists.{is_empty}
use imposter_go.Common.Map.{Map, lookup}
use imposter_go.Config.{Config, Resource, Interceptor, Schedule, Upstream, normalised_on}

-- What validation calls: url.Parse, as the scheme and the host, time.ParseDuration, in nanoseconds, and
-- whether cron.ParseStandard takes an expression. None is an error.
pub record Parsers : Type 0 where
  pub url_parse : String → Option (String × String)
  pub parse_duration : String → Option ℤ
  pub cron_parses : String → Bool

-- The schedule that a message is about: its name, or its index.
pub data ScheduleDesc : Type 0 where
  named : String → ScheduleDesc
  at_index : ℕ → ScheduleDesc

-- The errors, one for each message, with what the message quotes.
pub data Invalid : Type 0 where
  invalid_url missing_host : String → String → Invalid
  both_responses : String → Invalid
  on_unsupported responses_unsupported schedule_unsupported : String → Invalid
  invalid_on : String → String → Invalid
  schedule_not_open websocket_passthrough : String → Invalid
  unknown_upstream : String → String → Invalid
  interceptor_responses interceptor_schedule : String → Invalid
  trigger_count : ScheduleDesc → Invalid
  invalid_duration duration_not_positive invalid_cron : ScheduleDesc → String → Invalid
  negative_limit : ScheduleDesc → ℤ → Invalid
  both_in_schedule empty_schedule no_steps schedule_response : ScheduleDesc → Invalid

-- An error, if the test holds; or else the result of the checks that follow.
abbrev pub reject : Bool → Invalid → Option Invalid → Option Invalid
reject true error rest = some error
reject false error rest = rest

-- if err := f(); err != nil { return err }
abbrev pub and_then : Option Invalid → Option Invalid → Option Invalid
and_then none rest = rest
and_then (some error) rest = some error

-- scheduleDesc
unfoldable pub schedule_desc : Schedule → ℕ → ScheduleDesc
schedule_desc s i = if s.name == "" then at_index i else named s.name

abbrev same : Bool → Bool → Bool
same a b = if a then b else not b

abbrev known_event : String → Bool
known_event on = on == "" || on == "open" || on == "message" || on == "close"

-- validateWebSocketFields
unfoldable pub validate_other_plugin : Resource → Option Invalid
validate_other_plugin r = reject (not (r.on == "")) (on_unsupported r.path) (
    reject (not (is_empty r.responses)) (responses_unsupported r.path)
      (reject (not (is_empty r.schedule)) (schedule_unsupported r.path) none))

unfoldable pub validate_interceptors : List Interceptor → Option Invalid
validate_interceptors [] = none
validate_interceptors (i ∷ more) =
    reject (not (is_empty i.responses)) (interceptor_responses i.path) (
      reject (not (is_empty i.schedule)) (interceptor_schedule i.path) (validate_interceptors more))

module _ (p : Parsers) where
  unfoldable pub check_duration : String → ScheduleDesc → Option Invalid
  check_duration every desc = elim (p.parse_duration every) [
    | none ↦ some (invalid_duration desc every)
    | some d ↦ reject (not (ltb_ℤ (pos 0) d)) (duration_not_positive desc every) none
  ]

  -- validateScheduleTrigger
  unfoldable pub validate_schedule_trigger : Schedule → ScheduleDesc → Option Invalid
  validate_schedule_trigger s desc =
      reject (same (s.every == "") (s.cron == "")) (trigger_count desc) (
        and_then (if s.every == "" then none else check_duration s.every desc) (
          reject (not (s.cron == "") && not (p.cron_parses s.cron)) (invalid_cron desc s.cron)
            (reject (ltb_ℤ s.limit (pos 0)) (negative_limit desc s.limit) none)))

  -- A schedule of a websocket resource.
  unfoldable pub validate_connection_schedules : ℕ → List Schedule → Option Invalid
  validate_connection_schedules i [] = none
  validate_connection_schedules i (s ∷ more) =
      let desc = schedule_desc s i in
      and_then (validate_schedule_trigger s desc) (
        reject (is_some s.response && not (is_empty s.responses)) (both_in_schedule desc) (
          reject (is_none s.response && is_empty s.responses && is_empty s.steps)
            (empty_schedule desc) (validate_connection_schedules (i + 1) more)))

  unfoldable pub validate_websocket : Resource → Option Invalid
  validate_websocket r = reject (not (known_event r.on)) (invalid_on r.path r.on) (
      reject (not (is_empty r.schedule) && not (normalised_on r.request_matcher == "open"))
        (schedule_not_open r.path)
        (reject (not (r.passthrough == "")) (websocket_passthrough r.path)
          (validate_connection_schedules 0 r.schedule)))

  unfoldable pub validate_web_socket_fields : Config → Resource → Option Invalid
  validate_web_socket_fields cfg r =
      if cfg.plugin == "websocket" then validate_websocket r else validate_other_plugin r

  unfoldable pub validate_upstreams : Map Upstream → Option Invalid
  validate_upstreams [] = none
  validate_upstreams ((name, u) ∷ more) = elim (p.url_parse u.url) [
    | none ↦ some (invalid_url name u.url)
    | some (scheme, host) ↦
        reject (scheme == "" || host == "") (missing_host name u.url) (validate_upstreams more)
  ]

  unfoldable pub validate_resources : Config → List Resource → Option Invalid
  validate_resources cfg [] = none
  validate_resources cfg (r ∷ more) =
      reject (is_some r.response && not (is_empty r.responses)) (both_responses r.path) (
        and_then (validate_web_socket_fields cfg r) (
          reject (not (r.passthrough == "") && is_none (lookup r.passthrough cfg.upstreams))
            (unknown_upstream r.path r.passthrough) (validate_resources cfg more)))

  unfoldable pub validate_schedules : ℕ → List Schedule → Option Invalid
  validate_schedules i [] = none
  validate_schedules i (s ∷ more) =
      let desc = schedule_desc s i in
      and_then (validate_schedule_trigger s desc) (
        reject (is_empty s.steps) (no_steps desc) (
          reject (is_some s.response || not (is_empty s.responses)) (schedule_response desc)
            (validate_schedules (i + 1) more)))

  -- Validate
  unfoldable pub validate : Config → Option Invalid
  validate cfg = and_then (validate_upstreams cfg.upstreams) (
      and_then (validate_resources cfg cfg.resources)
        (and_then (validate_interceptors cfg.interceptors) (validate_schedules 0 cfg.schedules)))
