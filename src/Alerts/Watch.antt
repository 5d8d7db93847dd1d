-- ===== src/Alerts/Watch.antt =====
-- The loop of Config.watch (seer/alert.go) and its alarms.
--
-- `now` stands for the clock's readings that one round tests, and `noted` for those that it records.
-- The loop's local variables are the record `WatchState`.
use tenderduty_nos.Prelude.{
  ℕ, ◌+◌, ◌*◌, String, ◌<>◌, Bool, true, false, not, ◌&&◌, if◌then◌else◌, Option, none, some, List,
  [], ◌∷◌, leb, ltb, str_eq, Map, lookup, insert, Time, is_zero, is_before_ago, minute, decimal,
}
use tenderduty_nos.AlarmCache.{get_count}
use tenderduty_nos.Config.{ChainConfig, Config, NodeConfig, ValInfo}
use tenderduty_nos.Metrics.{MetricType, elapsed, PromUpdate, mk_update}
use tenderduty_nos.Alerts.Ingress.{Runtime, alert}
use tenderduty_nos.Alerts.Stalled.{check_stalled_alert}
use tenderduty_nos.Alerts.Percentage.{Float, check_percentage_alert}

pub record WatchState : Type 0 where
  pub missed_alarm : Bool
  pub no_nodes : Bool
  pub inactive : String
  pub node_alarms : Map Bool
  pub no_nodes_sec : ℕ

unfoldable pub new_watch : WatchState
new_watch = record {
  missed_alarm = false;
  no_nodes = false;
  inactive = "jailed";
  node_alarms = [];
  no_nodes_sec = 0;
}

abbrev pub not_connected : Option ValInfo → Bool
not_connected none = true
not_connected (some v) = str_eq v.moniker "not connected"

-- One second of the wait for a moniker: the state, whether an alarm is raised, and whether the wait is
-- over.
unfoldable pub wait_switch : Config → ChainConfig → WatchState → WatchState × (Bool × Bool)
wait_switch td chain w =
    if not (not_connected chain.val_info)
    then (record w { no_nodes_sec = 0 }, (false, true))
    else if chain.alerts.alert_if_no_servers
        && not w.no_nodes
        && chain.no_nodes
        && leb (60 * td.node_down_min) w.no_nodes_sec
    then (record w { no_nodes = true; no_nodes_sec = w.no_nodes_sec + 1 }, (true, false))
    else (record w { no_nodes_sec = w.no_nodes_sec + 1 }, (false, false))

-- The `switch` on the endpoints, and `resolved` where an alert is due.
unfoldable pub no_nodes_switch : Config → ChainConfig → WatchState → WatchState × Option Bool
no_nodes_switch td chain w =
    if chain.alerts.alert_if_no_servers && not w.no_nodes && chain.no_nodes
    then (if leb (w.no_nodes_sec + 2) (30 * td.node_down_min)
        then (record w { no_nodes_sec = w.no_nodes_sec + 2; no_nodes = false }, none)
        else (record w { no_nodes_sec = 0; no_nodes = true }, some false))
    else if chain.alerts.alert_if_no_servers && w.no_nodes && not chain.no_nodes
    then (record w { no_nodes = false }, some true)
    else (record w { no_nodes_sec = 0 }, none)

abbrev bool_eq : Bool → Bool → Bool
bool_eq true b = b
bool_eq false b = not b

-- The test on a change of the active set.
unfoldable pub inactive_switch :
    ChainConfig → ValInfo → Option ValInfo → WatchState → WatchState × Option Bool
inactive_switch chain v none w = (w, none)
inactive_switch chain v (some last) w =
    if chain.alerts.alert_if_inactive
      && not (bool_eq last.bonded v.bonded)
      && str_eq last.moniker v.moniker
    then (if not v.bonded && last.bonded
        then (
          (if v.tombstoned then record w { inactive = "☠\u{fe0f} tombstoned 🪦" } else w),
          some false,
        )
        else if v.bonded && not last.bonded
        then (w, some true)
        else (w, none))
    else (w, none)

unfoldable pub missed_switch : ChainConfig → WatchState → WatchState × Option Bool
missed_switch chain w =
    if not w.missed_alarm
      && chain.alerts.consecutive_alerts
      && leb chain.alerts.consecutive_missed chain.stat_consecutive_miss
    then (record w { missed_alarm = true }, some false)
    else if w.missed_alarm && ltb chain.stat_consecutive_miss chain.alerts.consecutive_missed
    then (record w { missed_alarm = false }, some true)
    else (w, none)

abbrev pub flag_of : Option Bool → Bool
flag_of none = false
flag_of (some b) = b

unfoldable pub is_overdue : Time → Config → NodeConfig → Bool
is_overdue now td n =
    n.alert_if_down
    && n.down
    && not n.was_down
    && not (is_zero n.down_since)
    && is_before_ago n.down_since (td.node_down_min * minute) now

-- One node: the node, the alarms raised, and `resolved` where an alert is due.
unfoldable pub node_switch :
    Time → Config → NodeConfig → Map Bool → NodeConfig × (Map Bool × Option Bool)
unfolding is_overdue
node_switch now td n raised =
    if is_overdue now td n
    then (if flag_of (lookup n.url raised)
        then (n, (raised, none))
        else (n, (insert n.url true raised, some false)))
    else if n.alert_if_down && not n.down && n.was_down
    then (record n { was_down = false }, (insert n.url false raised, some true))
    else (n, (raised, none))

unfoldable pub no_nodes_message : ChainConfig → String
no_nodes_message chain = "no RPC endpoints are working for " <> chain.chain_id

unfoldable pub inactive_message : ValInfo → WatchState → String
inactive_message v w = v.moniker <> (" is no longer active: validator is " <> w.inactive)

unfoldable pub missed_message : ChainConfig → ValInfo → String
missed_message chain v =
    v.moniker
    <> (" has missed "
        <> (decimal chain.alerts.consecutive_missed <> (" blocks on " <> chain.chain_id)))

unfoldable pub node_message : Config → ChainConfig → NodeConfig → String
node_message td chain n =
    ("Severity: " <> td.node_down_severity)
    <> (("\nRPC node " <> n.url)
        <> (" has been down for > "
            <> (decimal td.node_down_min <> (" minutes on " <> chain.chain_id))))

-- The call of `alert` for a switch: with `info` for a resolution.
unfoldable pub alert_due :
    Time → Config → ChainConfig → String → String → String → Option Bool → Runtime → Runtime
alert_due noted td chain message severity id none w = w
alert_due noted td chain message severity id (some resolved) w =
    alert noted td chain message (if resolved then "info" else severity) resolved (some id) w

-- `no_nodes` is critical in both of its alerts.
unfoldable pub no_nodes_due :
    Time → Config → ChainConfig → ValInfo → Option Bool → Runtime → Runtime
unfolding no_nodes_message
no_nodes_due noted td chain v none w = w
no_nodes_due noted td chain v (some resolved) w =
    alert noted td chain (no_nodes_message chain) "critical" resolved (some v.valcons) w

abbrev counted : Option Bool → ChainConfig → Runtime → ChainConfig
counted none chain w = chain
counted (some resolved) chain w = record chain { active_alerts = get_count w.alarms chain.name }

-- The loop over the nodes. The count of the alarms is taken before a node's alarm is raised, and after
-- it is resolved.
unfoldable pub watch_nodes :
    Time
    → Time
    → Config
    → List NodeConfig
    → ChainConfig
    → Map Bool
    → Runtime
    → List NodeConfig × (ChainConfig × (Map Bool × Runtime))
unfolding node_switch alert_due node_message
watch_nodes now noted td [] chain raised r = ([], (chain, (raised, r)))
watch_nodes now noted td (n ∷ ns) chain raised r =
    let (n', (raised', due)) = node_switch now td n raised in
    let r' = alert_due noted td chain (node_message td chain n) td.node_down_severity n.url due r in
    let chain' = counted due chain (if flag_of due then r' else r) in
    let (ns', rest) = watch_nodes now noted td ns chain' raised' r' in (n' ∷ ns', rest)

-- One round, from the endpoints to the nodes.
unfoldable pub watch_round :
    Time
    → Time
    → Float
    → Config
    → WatchState
    → ChainConfig
    → Runtime
    → WatchState × (ChainConfig × Runtime)
unfolding no_nodes_switch no_nodes_due inactive_switch inactive_message missed_switch missed_message
    watch_nodes
watch_round now noted fl td w chain r = elim chain.val_info [
  | none ↦ (w, (chain, r))
  | some v ↦
      let (w1, no_servers) = no_nodes_switch td chain w in
      let r1 = no_nodes_due noted td chain v no_servers r in
      let (c2, r2) = check_stalled_alert now noted td chain r1 in
      let (w3, changed) = inactive_switch c2 v c2.last_val_info w1 in
      let r3 =
        alert_due noted td c2 (inactive_message v w3) "critical" (v.valcons <> "jailed") changed
          r2 in
      let (w4, missing) = missed_switch c2 w3 in
      let r4 =
        alert_due noted td c2 (missed_message c2 v) c2.alerts.consecutive_priority
          (v.valcons <> "consecutive") missing r3 in
      let (c5, r5) = check_percentage_alert noted fl td (counted missing c2 r4) r4 in
      let (ns, (c6, (raised, r6))) = watch_nodes now noted td c5.nodes c5 w4.node_alarms r5 in
      (record w4 { node_alarms = raised }, (record c6 { nodes = ns }, r6))
]

unfoldable pub node_times : Time → ChainConfig → List NodeConfig → List PromUpdate
unfolding mk_update
node_times now chain [] = []
node_times now chain (n ∷ ns) =
    let rest = node_times now chain ns in
    if n.down && not (is_zero n.down_since)
    then mk_update chain MetricType.node_down_seconds (elapsed n.down_since now) n.url ∷ rest
    else rest

-- The metrics at the end of a round, in order; a context that ends cuts them off and ends the loop.
unfoldable pub watch_metrics : Time → Config → ChainConfig → List PromUpdate
unfolding node_times mk_update
watch_metrics now td chain =
    if td.prom
    then mk_update chain MetricType.last_block_seconds_not_final (elapsed chain.last_block_time now)
        ""
      ∷ node_times now chain chain.nodes
    else []
