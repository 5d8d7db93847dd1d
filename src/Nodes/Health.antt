-- ===== src/Nodes/Health.antt =====
-- One tick of monitorHealth (seer/rpc.go), up to the wait for its probes.
--
-- Each probe changes its own node alone, so the goroutines' order does not show in the nodes.
use tenderduty_nos.Prelude.{
  String, ◌<>◌, Bool, true, false, not, ◌&&◌, ◌||◌, if◌then◌else◌, Option, none, some, List, [],
  ◌∷◌, ◌++◌, str_eq, pad_right, Time, unix_epoch,
}
use tenderduty_nos.Config.{ChainConfig, Config, NodeConfig}
use tenderduty_nos.Metrics.{MetricType, count, elapsed, PromUpdate, mk_update}
use tenderduty_nos.Nodes.Select.{Rpc, status_failed, answered}

-- What a probe finds wrong: the message, and whether the node is catching up.
unfoldable pub diagnose : Rpc → ChainConfig → String → Option (String × Bool)
diagnose r cc url = elim (r.open_error url) [
  | some e ↦ some (e, false)
  | none ↦ elim (r.status url) [
    | status_failed e ↦ some ("down", false)
    | answered s ↦
        if not (str_eq s.network cc.chain_id)
        then some ("on the wrong network", false)
        else if s.catching_up
        then some ("not synced", true)
        else none
  ]
]

unfoldable pub mark_unhealthy : Time → String → String → NodeConfig → NodeConfig
mark_unhealthy now chain_name message n =
    let text = (pad_right 12 chain_name <> " node ") <> (n.url <> (" is " <> message)) in
    let n' = record n { last_msg = text } in
    if n.down
    then n'
    else if n.alert_if_down
    then record n' { down = true; down_since = now }
    else record n' { down = true }

unfoldable pub mark_healthy : NodeConfig → NodeConfig
mark_healthy n =
    let n' = if n.down then record n { last_msg = ""; was_down = true } else n in
    record n' { down = false; syncing = false; down_since = unix_epoch }

-- The node after its probe.
unfoldable pub probe_node : Rpc → Time → String → ChainConfig → NodeConfig → NodeConfig
unfolding diagnose mark_unhealthy mark_healthy
probe_node r now chain_name cc n = elim (diagnose r cc n.url) [
  | none ↦ mark_healthy n
  | some (message, syncing) ↦
      let n' = mark_unhealthy now chain_name message n in
      if syncing then record n' { syncing = true } else n'
]

-- The metric that a probe emits, at `emitted`.
unfoldable pub probe_metric :
    Rpc → Time → Time → String → Config → ChainConfig → NodeConfig → List PromUpdate
unfolding probe_node mk_update
probe_metric r now emitted chain_name td cc n =
    let n' = probe_node r now chain_name cc n in
    elim (diagnose r cc n.url) [
      | none ↦
          if td.prom then mk_update cc MetricType.node_down_seconds (count 0) n.url ∷ [] else []
      | some x ↦
          if td.prom && n.alert_if_down
          then mk_update cc MetricType.node_down_seconds (elapsed n'.down_since emitted) n.url ∷ []
          else []
    ]

-- The probes of all nodes: a healthy one clears `no_nodes`.
unfoldable pub probe_nodes :
    Rpc
    → Time
    → Time
    → String
    → Config
    → ChainConfig
    → List NodeConfig
    → List NodeConfig × (List PromUpdate × Bool)
unfolding probe_node probe_metric
probe_nodes r now emitted chain_name td cc [] = ([], ([], false))
probe_nodes r now emitted chain_name td cc (n ∷ ns) =
    let (ns', (metrics, healthy)) = probe_nodes r now emitted chain_name td cc ns in
    let n' = probe_node r now chain_name cc n in
    (n' ∷ ns', (probe_metric r now emitted chain_name td cc n ++ metrics, not n'.down || healthy))

unfoldable pub check_health :
    Rpc → Time → Time → String → Config → ChainConfig → ChainConfig × List PromUpdate
unfolding probe_nodes
check_health r now emitted chain_name td cc =
    let (nodes, (metrics, healthy)) = probe_nodes r now emitted chain_name td cc cc.nodes in
    (record cc { nodes = nodes; no_nodes = if healthy then false else cc.no_nodes }, metrics)
