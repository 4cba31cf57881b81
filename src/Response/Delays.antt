-- ===== src/Response/Delays.antt =====
-- The delays of a response.
use imposter_go.Common.{String, ◌≡◌, Bool, not, ◌&&◌, Option, some, if◌then◌else◌, is_none, arith}
use imposter_go.Common.Int.{pos, ltb_ℤ}
use imposter_go.Config.{Delay, Response, RequestMatcher}
use imposter_go.Exchange.Context.{Exchange}
use imposter_go.External.{External}
use imposter_go.Response.{simulate_delay, has_delay, delayed, process_response}

-- rand.Intn has nothing to draw from.
abbrev pub panics : Delay → Bool
panics d = not (ltb_ℤ (pos 0) d.exact) && ltb_ℤ d.max d.min

pub delayed-state :
    (resp : Response) (e e' : Exchange)
    → delayed resp e ≡ some e'
    → e'.response_state ≡ e.response_state
unfolding delayed simulate_delay
delayed-state resp e e' h = ground arith

module _ (x : External) (template : Exchange → Option RequestMatcher → String → String)
    (file_base_dir : String) where
  -- Only a delay whose range is empty makes the processing of a response panic: the delay that the
  -- script set where there is one, else the configured one.
  pub process_response-none :
      (e : Exchange) (m : Option RequestMatcher) (resp : Response)
      → is_none (process_response x template file_base_dir e m resp) ≡ (
          if has_delay e.response_state.delay
          then panics e.response_state.delay
          else has_delay resp.delay && panics resp.delay)
  unfolding process_response delayed simulate_delay
  process_response-none e m resp = ground arith
