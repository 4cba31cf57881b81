-- ===== src/WebSocket/Opening.antt =====
-- When a connection is opened.
use imposter_go.Common.{Bool, true, false}
use imposter_go.Config.{Config}
use imposter_go.Exchange.Context.{Exchange}
use imposter_go.WebSocket.Upgrade.{Writer, can_hijack}

abbrev pub hijackable : Writer → Bool
hijackable can_hijack = true
hijackable w = false
