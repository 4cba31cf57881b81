-- ===== src/Exchange/Context.antt =====
-- The Exchange of internal/exchange/exchange.go, with the stores that its handles reach, the
-- times it has slept, and the frames that its hooks have sent to a connection. A panic is `none` where a function may panic.
use imposter_go.Common.{String, Option, List}
use imposter_go.Common.Int.{ℤ}
use imposter_go.Store.Handle.{Store, Stores}
use imposter_go.Exchange.{Request, ResponseState}

-- A call of time.Sleep, in milliseconds: a fixed time, or one drawn by rand.Intn, bounds included.
pub data Sleep : Type 0 where
  exactly : ℤ → Sleep
  between : ℤ → ℤ → Sleep

pub record Exchange : Type 0 where
  pub request : Request
  pub stores : Stores
  pub request_store : Option Store
  pub response_state : ResponseState
  pub sleeps : List Sleep
  pub frames : List String

-- A change of the response state.
abbrev pub on_state : (ResponseState → ResponseState) → Exchange → Exchange
on_state f e = record e { response_state = f e.response_state }
