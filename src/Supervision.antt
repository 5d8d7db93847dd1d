-- ===== src/Supervision.antt =====
-- What keeps a chain connected: monitorChain (seer/run.go) and one whole tick of monitorHealth
-- (seer/rpc.go).
--
-- A pass of monitorChain reads its answers from outside: `live` is whether the context is live at the top
-- of the loop, `live_after` whether it is after WsRun, `waited` whether the wait of five seconds is not cut
-- short. The state is the chain, its connection, and what is sent to the dashboard and to the metrics.
pub mod Reconnect
use tenderduty_nos.Prelude.{
  ℕ, String, Bool, true, false, not, ◌||◌, if◌then◌else◌, Option, none, some, List, [], ◌∷◌, ◌++◌,
  Time,
}
use tenderduty_nos.AlarmCache.{AlarmCache}
use tenderduty_nos.Config.{ChainConfig, Config}
use tenderduty_nos.Metrics.{PromUpdate}
use tenderduty_nos.Blocks.{ChainStatus}
use tenderduty_nos.Nodes.{Rpc, Connected, new_rpc, check_health}
use tenderduty_nos.Validator.{Queries, Refreshed, get_val_info}
use tenderduty_nos.Socket.{Net, Look, Socket, Ended, panicked, ws_run}

pub record Pass : Type 0 where
  pub live : Bool
  pub rpc : Rpc
  pub now : String → Time
  pub alarms : AlarmCache
  pub queries : Queries
  pub net : Net
  pub write : String → Option String
  pub started : Time
  pub looks : List Look
  pub live_after : Bool
  pub waited : Bool

pub record Watched : Type 0 where
  pub cc : ChainConfig
  pub socket : Socket
  pub statuses : List ChainStatus
  pub metrics : List PromUpdate

-- Whether a run of the websocket ended the process.
abbrev pub has_panicked : Ended → Bool
has_panicked panicked = true
has_panicked _ = false

-- A pass that found an endpoint: the validator's state and then the websocket, and whether that panicked.
unfoldable pub follow_chain : Config → Pass → Watched → Watched × Bool
unfolding get_val_info ws_run
follow_chain td p w =
    let refreshed = get_val_info p.queries td true w.cc in
    let (socket, ended) = ws_run p.net p.write p.started p.looks w.socket in
    (
      record w { cc = refreshed.chain; socket = socket; metrics = w.metrics ++ refreshed.metrics },
      has_panicked ended,
    )

-- Whether the context has ended by the end of a pass.
unfoldable pub ends_pass : Pass → Option String → Bool
ends_pass p none = not p.live_after || not p.waited
ends_pass p (some e) = not p.waited

unfoldable pub after_pass : Config → Pass → Option String → Watched → Watched × Bool
unfolding follow_chain
after_pass td p none w = follow_chain td p w
after_pass td p (some e) w = (w, false)

-- monitorChain goes on, has returned, or has ended the process.
pub data Fate : Type 0 where
  running stopped crashed : Fate

-- monitorChain over a series of passes.
unfoldable pub monitor_chain : Config → List Pass → Watched → Watched × Fate
unfolding new_rpc ends_pass after_pass
monitor_chain td [] w = (w, running)
monitor_chain td (p ∷ ps) w =
    let connected = new_rpc p.rpc p.now td p.alarms w.cc in
    let w1 = record w { cc = connected.cc; statuses = w.statuses ++ connected.statuses } in
    let r = after_pass td p connected.error w1 in
    let rest = monitor_chain td ps r.0 in
    if not p.live
    then (w, stopped)
    else if r.1
    then (r.0, crashed)
    else if ends_pass p connected.error
    then (r.0, stopped)
    else rest

-- `if cc.rpcClientSnapshot() == nil { cc.newRpc(ctx) }`
unfoldable pub reconnected : Rpc → (String → Time) → Config → AlarmCache → ChainConfig → ChainConfig
unfolding new_rpc
reconnected r marked td alarms cc = elim cc.client [
  | none ↦ (new_rpc r marked td alarms cc).cc
  | some client ↦ cc
]

-- One tick of monitorHealth: the probes, then a new endpoint where there is none, then the validator's
-- state. `live` is whether the context is live after the probes.
unfoldable pub health_tick :
    Rpc
    → (String → Time)
    → Time
    → Time
    → Queries
    → Bool
    → String
    → Config
    → AlarmCache
    → ChainConfig
    → ChainConfig × List PromUpdate
unfolding check_health reconnected get_val_info
health_tick r marked now emitted q live chain_name td alarms cc =
    let (cc1, metrics) = check_health r now emitted chain_name td cc in
    let cc2 = reconnected r marked td alarms cc1 in
    let refreshed = get_val_info q td false cc2 in
    if live then (refreshed.chain, metrics ++ refreshed.metrics) else (cc1, metrics)
