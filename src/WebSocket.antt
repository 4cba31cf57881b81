-- ===== src/WebSocket.antt =====
-- plugin/websocket: the events of a connection (connection.go) and its schedules (schedule.go). None
-- stands for a panic.
pub mod Firing
pub mod Frames
pub mod Matching
pub mod Opening
pub mod Runs
mod Tests
pub mod Upgrade
use imposter_go.Common.{
  ℕ, zero, suc, ◌+◌, String, Bool, true, false, not, ◌&&◌, Option, none, some, List, [], ◌∷◌, ◌++◌,
  ◌==◌, if◌then◌else◌, get_or,
}
use imposter_go.Common.Int.{ℤ, pos, ltb_ℤ, ◌+ℤ◌}
use imposter_go.Common.Lists.{any, is_empty}
use imposter_go.Common.Map.{Map}
use imposter_go.Common.Maybe.{◌>>=◌}
use imposter_go.Config.{
  Config, Resource, BaseResource, RequestMatcher, Response, Schedule, normalised_on,
  effective_responses, empty_matcher, web_socket_event_open, web_socket_event_message,
  web_socket_event_close,
}
use imposter_go.Config.Validate.{Parsers}
use imposter_go.Exchange.{Request, ResponseState, new_response_state}
use imposter_go.Exchange.Context.{Exchange, on_state}
use imposter_go.Matcher.Score.{calculate_match_score, negative_match_score}
use imposter_go.Pipeline.{Engines, Hooks, run_pipeline, failed_with}
use imposter_go.Response.{process_response}
use imposter_go.Scheduler.{Run, fire_once}
use imposter_go.Scheduler.Start.{Job, jobs_of}
use imposter_go.Store.Handle.{Stores, new_request_store, begin_request}

-- The parts of wsConn: the upgrade request, the stores with the request store of the connection, and
-- the frames that have been put into the queue of its writer, in their order. Those that the writer
-- has not sent when the connection ends, or when a write fails, are lost in the code.
pub record Connection : Type 0 where
  pub upgrade : Request
  pub stores : Stores
  pub frames : List String

-- newConnection
unfoldable pub new_connection : Request → Stores → Connection
new_connection r stores = record { upgrade = r; stores = begin_request stores; frames = [] }

-- The exchange of an event, and what it leaves of the connection.
abbrev pub event_exchange : Connection → String → Exchange
event_exchange c body = record {
  request = record c.upgrade { body = body };
  stores = c.stores;
  request_store = some new_request_store;
  response_state = new_response_state;
  sleeps = [];
  frames = c.frames;
}

abbrev pub left_by : Connection → Exchange → Connection
left_by c e = record c { stores = e.stores; frames = e.frames }

-- A schedule of a connection, with the state of its runner.
pub record Running : Type 0 where
  pub job : Job
  pub fire_count : ℕ
  pub returned : Bool

abbrev pub begin : List Job → List Running
begin [] = []
begin (job ∷ jobs) = record { job = job; fire_count = 0; returned = false } ∷ begin jobs

-- What a connection waits for: a text message, another message, or the timer of a schedule.
pub data Occurrence : Type 0 where
  text_message : String → Occurrence
  other_message : Occurrence
  timer : ℕ → Occurrence

-- A connection with its schedules.
pub record Live : Type 0 where
  pub connection : Connection
  pub running : List Running

module _ (g : Engines) (cfg : Config) where
  -- The end of processAndSend: the body becomes a frame, and is reset with the file.
  unfoldable pub send_body : Bool → Exchange → Exchange
  send_body send_frame e =
      let body = get_or e.response_state.body "" in
      record e {
        frames = if send_frame && not (body == "") then e.frames ++ (body ∷ []) else e.frames;
        response_state = record e.response_state { body = none; file = "" };
      }

  -- processAndSend
  unfoldable pub process_and_send :
      Bool → Exchange → Option RequestMatcher → Option Response → Option Exchange
  process_and_send send_frame e m resp = do
    r ← resp
    e' ← process_response g.external g.process_template cfg.config_dir e m r
    some (send_body send_frame e')

  abbrev event_score : ℤ × Bool → ℤ × Bool
  event_score (score, wildcard) =
      if ltb_ℤ score (pos 0) then (score, wildcard) else (score +ℤ pos 1, wildcard)

  abbrev pub plain_score : Exchange → RequestMatcher → ℤ × Bool
  plain_score e m =
      calculate_match_score g.external (g.evaluate e m) e.request m
        (elim cfg.system [ none ↦ [] | some s ↦ s.xml_namespaces ])

  -- The hooks of runEventPipeline.
  unfoldable pub event_hooks : String → Hooks
  event_hooks event = record {
    calculate_score = λ e m.
        if not (normalised_on m == event)
        then (negative_match_score, false)
        else event_score (plain_score e m);
    on_step_error = λ msg rs. record rs { handled = true };
    process_response = process_and_send (not (event == web_socket_event_close));
    get_resource_name = λ r. (r.path, "WS");
  }

  -- runEventPipeline
  unfoldable pub run_event_pipeline :
      String → String → Connection → Option (Connection × ResponseState)
  run_event_pipeline event body c = do
    e ← run_pipeline g (event_hooks event) cfg (event_exchange c body)
    some (left_by c e, e.response_state)

  -- The loop over the responses of a firing.
  unfoldable pub send_responses : List Response → Exchange → Option Exchange
  send_responses [] e = some e
  send_responses (r ∷ rs) e = do
    e' ← process_and_send true e (some empty_matcher) (some r)
    send_responses rs e'

  abbrev after_firing_steps : Schedule → Exchange × Bool → Option Exchange
  after_firing_steps s (e, true) = some e
  after_firing_steps s (e, false) = send_responses (effective_responses s.response s.responses) e

  -- fireSchedule of a connection.
  unfoldable pub fire_connection_schedule : Schedule → Connection → Option Connection
  fire_connection_schedule s c =
      let e = event_exchange c "" in
      let stepped =
        if is_empty s.steps then some (e, false) else g.run_steps s.steps e empty_matcher in
      do ran ← stepped; e' ← after_firing_steps s ran; some (left_by c e')

  -- One firing of a schedule by its runner, which counts it and returns at its limit.
  unfoldable pub fire_running : Running → Connection → Option (Running × Connection)
  fire_running r c = if r.returned then some (r, c) else do
    c' ← fire_connection_schedule r.job.entry c
    let run =
        fire_once r.job.limit (λ c. c)
          (record { fire_count = r.fire_count; returned = r.returned; world = c' })
    some (record { job = r.job; fire_count = run.fire_count; returned = run.returned }, run.world)

  abbrev keep_first : Running → List Running × Connection → List Running × Connection
  keep_first r (rs, c) = (r ∷ rs, c)

  -- The timer of the schedule with an index.
  unfoldable pub on_timer : ℕ → List Running → Connection → Option (List Running × Connection)
  on_timer n [] c = some ([], c)
  on_timer ℕ.zero (r ∷ rs) c = do fired ← fire_running r c; some (fired.0 ∷ rs, fired.1)
  on_timer (suc n) (r ∷ rs) c = do rest ← on_timer n rs c; some (keep_first r rest)

  unfoldable pub on_occurrence : Occurrence → Live → Option Live
  on_occurrence (text_message body) l = do
    ran ← run_event_pipeline web_socket_event_message body l.connection
    some (record l { connection = ran.0 })
  on_occurrence other_message l = some l
  on_occurrence (timer n) l = do
    fired ← on_timer n l.running l.connection
    some (record { running = fired.0; connection = fired.1 })

  unfoldable pub on_occurrences : List Occurrence → Live → Option Live
  on_occurrences [] l = some l
  on_occurrences (o ∷ os) l = do l' ← on_occurrence o l; on_occurrences os l'

  -- The close event, once no message can be read.
  unfoldable pub close_connection : Live → Option Live
  close_connection l = do
    closed ← run_event_pipeline web_socket_event_close "" l.connection
    some (record l { connection = closed.0 })

  module _ (p : Parsers) (limit_env : String) where
    -- startSchedules, of the resource that has handled the open event, if any.
    unfoldable pub start_schedules : Option BaseResource → List Running
    start_schedules none = []
    start_schedules (some r) = begin (jobs_of p limit_env cfg 0 r.schedule)

    -- The connection after its open event.
    unfoldable pub open_connection : Connection → Option Live
    open_connection c = do
      ran ← run_event_pipeline web_socket_event_open "" c
      some (record { connection = ran.0; running = start_schedules ran.1.resource })

    -- wsConn.run, over what happens before the client disconnects, one thing at a time.
    unfoldable pub run : List Occurrence → Connection → Option Live
    run os c = do opened ← open_connection c; l ← on_occurrences os opened; close_connection l
