-- ===== src/WebSocket/Frames.antt =====
-- What a connection is sent when it closes.
use imposter_go.Common.{String, ◌≡◌, refl, ◌∙◌, false, Option, none, some, List}
use imposter_go.Common.Maybe.{Returns-map, Returns, Returns->>=, Returns-self}
use imposter_go.Config.{Config, RequestMatcher, Response, Step, Upstream}
use imposter_go.Exchange.Context.{Exchange}
use imposter_go.Pipeline.{Engines, run_pipeline}
use imposter_go.Pipeline.Preserves.{Preserves, run_pipeline-keeps}
use imposter_go.Response.{process_response}
use imposter_go.Response.Frame.{process_response-IsFramed}
use imposter_go.WebSocket.{
  Connection, event_exchange, left_by, send_body, process_and_send, event_hooks, run_event_pipeline,
}

-- The step runner and the upstream proxy do not write to the connection.
pub record WritesNoFrames (g : Engines) : Type 0 where
  pub steps :
      (ss : List Step) (e : Exchange) (m : RequestMatcher)
      → Returns (λ r. r.0.frames ≡ e.frames) (g.run_steps ss e m)
  pub proxies :
      (e : Exchange) (name : String) (u : Upstream) → (g.proxy e name u).0.frames ≡ e.frames

module _ (g : Engines) (cfg : Config) where
  send_body-frames : (e : Exchange) → (send_body g cfg false e).frames ≡ e.frames
  unfolding send_body
  send_body-frames e = refl

  process_and_send-same :
      (e : Exchange) (m : Option RequestMatcher) (r : Option Response)
      → Returns (λ e'. e'.frames ≡ e.frames) (process_and_send g cfg false e m r)
  unfolding process_and_send
  process_and_send-same e m none = tt
  process_and_send-same e m (some r) =
      let processed = process_response g.external g.process_template cfg.config_dir e m r in
      Returns->>= (λ e'. processed ≡ some e') (λ e'. e'.frames ≡ e.frames) processed
        (λ e'. some (send_body g cfg false e')) (Returns-self processed)
        (λ e' d.
          send_body-frames e'
          ∙ (process_response-IsFramed g.external g.process_template cfg.config_dir e e' m r d).2)

  module _ (quiet : WritesNoFrames g) where
    event_hooks-closing :
        (fs : List String) → Preserves g (event_hooks g cfg "close") (λ e. e.frames ≡ fs)
    unfolding event_hooks
    event_hooks-closing fs = record {
      state = λ rs e s. s;
      stores = λ st e s. s;
      responds = λ e m r s.
          Returns-map (λ e'. e'.frames ≡ e.frames) (λ e'. e'.frames ≡ fs)
            (process_and_send g cfg false e m r) (process_and_send-same e m r)
            (λ e' same. same ∙ s);
      steps = λ ss e m s.
          Returns-map (λ r. r.0.frames ≡ e.frames) (λ r. r.0.frames ≡ fs) (g.run_steps ss e m)
            (quiet.steps ss e m) (λ r same. same ∙ s);
      proxies = λ e name u s. quiet.proxies e name u ∙ s;
    }

    -- Where the step runner and the upstream proxy do not write to the connection, the event of its
    -- closing sends no frame, whatever resource it matches.
    pub run_event_pipeline-close :
        (body : String) (c : Connection)
        → Returns (λ r. r.0.frames ≡ c.frames) (run_event_pipeline g cfg "close" body c)
    unfolding run_event_pipeline
    run_event_pipeline-close body c =
        Returns->>= (λ e. e.frames ≡ c.frames) (λ r. r.0.frames ≡ c.frames)
          (run_pipeline g (event_hooks g cfg "close") cfg (event_exchange c body))
          (λ e. some (left_by c e, e.response_state))
          (run_pipeline-keeps g (event_hooks g cfg "close") cfg (λ e. e.frames ≡ c.frames)
            (event_hooks-closing c.frames) (event_exchange c body) refl)
          (λ e s. s)
