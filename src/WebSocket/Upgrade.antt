-- ===== src/WebSocket/Upgrade.antt =====
-- plugin/websocket/handler.go: the upgrade of a request.
use imposter_go.Common.{String, Bool, true, not, Option, none, some, [], if◌then◌else◌}
use imposter_go.Common.Int.{ℤ, pos, ltb_ℤ}
use imposter_go.Common.Lists.{any}
use imposter_go.Config.{Config, empty_matcher}
use imposter_go.Exchange.{Request}
use imposter_go.Exchange.Context.{Exchange, on_state}
use imposter_go.Matcher.Score.{calculate_match_score}
use imposter_go.Pipeline.{Engines, failed_with}
use imposter_go.WebSocket.{Connection, new_connection}

-- What the upgrade finds of the response writer.
pub data Writer : Type 0 where
  no_writer cannot_hijack can_hijack : Writer

-- websocket.IsWebSocketUpgrade, and whether Upgrader.Upgrade succeeds.
pub record Upgrader : Type 0 where
  pub is_web_socket_upgrade : Request → Bool
  pub upgrade : Request → Bool

module _ (g : Engines) (cfg : Config) where
  -- pathMatches
  unfoldable pub path_matches : Exchange → Bool
  path_matches e =
      any
        (λ r. not (
          ltb_ℤ
            (calculate_match_score g.external
              (g.evaluate e (record empty_matcher { path = r.path })) e.request
              (record empty_matcher { path = r.path }) []).0
            (pos 0)))
        cfg.resources

  abbrev refused : ℤ → String → Exchange → Exchange × Option Connection
  refused code message e =
      (on_state (λ rs. record (failed_with code message rs) { handled = true }) e, none)

  abbrev opened : Exchange → Exchange × Option Connection
  opened e = (
    on_state (λ rs. record rs { hijacked = true; handled = true }) e,
    some (new_connection e.request e.stores),
  )

  abbrev upgraded : Upgrader → Writer → Exchange → Exchange × Option Connection
  upgraded u no_writer e = refused (pos 501) "websocket upgrade is not supported in this runtime" e
  upgraded u cannot_hijack e =
      refused (pos 501) "websocket upgrade requires an HTTP/1.1 connection" e
  upgraded u can_hijack e =
      if u.upgrade e.request then opened e else refused (pos 400) "websocket upgrade failed" e

  -- HandleRequest, with the connection that it starts.
  unfoldable pub handle_upgrade : Upgrader → Writer → Exchange → Exchange × Option Connection
  handle_upgrade u w e =
      if not (u.is_web_socket_upgrade e.request)
      then (e, none)
      else if not (path_matches e)
      then (e, none)
      else upgraded u w e
