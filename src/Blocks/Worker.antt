-- ===== src/Blocks/Worker.antt =====
-- The result worker of WsRun (seer/ws.go) and recordBlockResult (seer/runtime_state.go).
--
-- The clock, the text of the current time, the validator's state and the alarms, which other goroutines
-- change between two updates, and whether the context is still live when a metric is sent are
-- arguments of each update. The worker's local state is `sign_state`.
use tenderduty_nos.Prelude.{
  ℕ, suc, ◌+◌, ◌-◌, String, ◌<>◌, Bool, not, ◌&&◌, ◌||◌, if◌then◌else◌, Option, none, some, List,
  [], ◌∷◌, ◌++◌, ltb, ℤ, Time, length, drop_last, take, leb, decimal,
}
use tenderduty_nos.AlarmCache.{AlarmCache, get_alarms, get_count}
use tenderduty_nos.Config.{ChainConfig, Config, ValInfo, NodeConfig}
use tenderduty_nos.Alerts.{record_final_block}
use tenderduty_nos.Metrics.{MetricType, count, elapsed, PromUpdate, mk_update}
use tenderduty_nos.Blocks.Events.{
  StatusType, unset, missed, prevote, precommit, signed, proposed, rank, status_int, StatusUpdate,
}

-- `ChainStatus` of seer/dashboard/types.go.
pub record ChainStatus : Type 0 where
  pub msg_type : String
  pub name : String
  pub chain_id : String
  pub moniker : String
  pub bonded : Bool
  pub jailed : Bool
  pub tombstoned : Bool
  pub missed : ℕ
  pub window : ℕ
  pub nodes : ℕ
  pub healthy_nodes : ℕ
  pub active_alerts : ℕ
  pub height : ℕ
  pub last_error : String
  pub blocks : List ℤ

-- The newest result goes in front, and the oldest falls out of a list that is not empty.
unfoldable pub record_block_result : ℤ → List ℤ → List ℤ
record_block_result result [] = result ∷ []
record_block_result result (b ∷ bs) = result ∷ drop_last (b ∷ bs)

-- The `switch signState` on the counters.
unfoldable pub count_result : StatusType → ChainConfig → ChainConfig
count_result unset cc = cc
count_result missed cc = record cc {
  stat_total_miss = cc.stat_total_miss + 1;
  stat_consecutive_miss = cc.stat_consecutive_miss + 1;
}
count_result precommit cc = record cc {
  stat_precommit_miss = cc.stat_precommit_miss + 1;
  stat_total_miss = cc.stat_total_miss + 1;
  stat_consecutive_miss = cc.stat_consecutive_miss + 1;
}
count_result prevote cc = record cc {
  stat_prevote_miss = cc.stat_prevote_miss + 1;
  stat_total_miss = cc.stat_total_miss + 1;
  stat_consecutive_miss = cc.stat_consecutive_miss + 1;
}
count_result signed cc = record cc {
  stat_total_signs = cc.stat_total_signs + 1;
  stat_consecutive_miss = 0;
}
count_result proposed cc = record cc {
  stat_total_props = cc.stat_total_props + 1;
  stat_total_signs = cc.stat_total_signs + 1;
  stat_consecutive_miss = 0;
}

-- `if update.Status > signState && valInfo.Bonded`
unfoldable pub raise_status : ValInfo → StatusUpdate → StatusType → StatusType
raise_status v update sign_state =
    if ltb (rank sign_state) (rank update.status) && v.bonded then update.status else sign_state

unfoldable pub healthy_count : List NodeConfig → ℕ
healthy_count [] = 0
healthy_count (n ∷ ns) = let rest = healthy_count ns in if n.down then rest else suc rest

unfoldable pub down_notes : Bool → List NodeConfig → String
down_notes hide_logs [] = ""
down_notes hide_logs (n ∷ ns) =
    (if n.down && not hide_logs then "\n - " <> n.last_msg else "") <> down_notes hide_logs ns

unfoldable pub jail_note : ValInfo → String
jail_note v =
    if v.tombstoned
    then "- validator is tombstoned\n"
    else if v.jailed
    then "- validator is jailed\n"
    else ""

pub record WorkerState : Type 0 where
  pub cc : ChainConfig
  pub sign_state : StatusType
  pub running : Bool
  pub statuses : List ChainStatus
  pub metrics : List PromUpdate

-- What the worker reads from outside: the validator's state and the alarms, which others change, the
-- time, its text, whether the context is live when the block
-- metric is sent, and how many of the closing metrics are sent before the context ends.
pub record Moment : Type 0 where
  pub now : Time
  pub stamp : String
  pub live_block : Bool
  pub sent_stats : ℕ
  pub val_info : Option ValInfo
  pub alarms : AlarmCache

unfoldable pub warning : ValInfo → StatusUpdate → ChainConfig → String
warning v update cc =
    "❌ warning      "
    <> (v.moniker <> (" missed block " <> (decimal update.height <> (" on " <> cc.chain_id))))

unfoldable pub stat_updates : ChainConfig → ℕ → List PromUpdate
unfolding mk_update
stat_updates cc healthy =
    mk_update cc MetricType.signed (count cc.stat_total_signs) ""
    ∷ mk_update cc MetricType.proposed (count cc.stat_total_props) ""
    ∷ mk_update cc MetricType.missed (count cc.stat_total_miss) ""
    ∷ mk_update cc MetricType.prevote (count cc.stat_prevote_miss) ""
    ∷ mk_update cc MetricType.precommit (count cc.stat_precommit_miss) ""
    ∷ mk_update cc MetricType.consecutive (count cc.stat_consecutive_miss) ""
    ∷ mk_update cc MetricType.unhealthy_nodes (count (length cc.nodes - healthy)) ""
    ∷ []

-- The final part of a final update: from the block result to the metrics.
unfoldable pub close_block : Moment → Config → ValInfo → StatusUpdate → WorkerState → WorkerState
close_block t td v update s =
    let blocks = record_block_result (status_int s.sign_state) s.cc.blocks_results in
    let cc1 = record s.cc { blocks_results = blocks } in
    let info = get_alarms td.hide_logs t.alarms cc1.name in
    let is_miss = ltb (rank s.sign_state) (rank signed) && v.bonded in
    let info1 = if is_miss then info <> (warning v update cc1 <> "\n") else info in
    let cc2 = if is_miss then record cc1 { last_error = t.stamp <> (" " <> info1) } else cc1 in
    let cc3 = count_result s.sign_state cc2 in
    let healthy = healthy_count cc3.nodes in
    let info2 = (info1 <> down_notes td.hide_logs cc3.nodes) <> jail_note v in
    let cc4 = record cc3 { active_alerts = get_count t.alarms cc3.name } in
    let status : ChainStatus = record {
      msg_type = "status";
      name = cc4.name;
      chain_id = cc4.chain_id;
      moniker = v.moniker;
      bonded = v.bonded;
      jailed = v.jailed;
      tombstoned = v.tombstoned;
      missed = v.missed;
      window = v.window;
      nodes = length cc4.nodes;
      healthy_nodes = healthy;
      active_alerts = cc4.active_alerts;
      height = update.height;
      last_error = info2;
      blocks = blocks;
    } in
    let updates = stat_updates cc4 healthy in
    record {
      cc = cc4;
      sign_state = unset;
      running = not td.prom || leb (length updates) t.sent_stats;
      statuses = if td.enable_dash then s.statuses ++ (status ∷ []) else s.statuses;
      metrics = if td.prom then s.metrics ++ take t.sent_stats updates else s.metrics;
    }

-- The first part of a final update: the block's number and time, and the metric of its distance from
-- the block before, whose failure ends the worker.
unfoldable pub begin_block : Moment → Config → StatusUpdate → WorkerState → WorkerState
begin_block t td update s =
    let (cc1, previous) =
      record_final_block t.now (record s.cc { last_block_num = update.height }) in
    let seconds = mk_update cc1 MetricType.last_block_seconds (elapsed previous t.now) "" in
    record s {
      cc = cc1;
      running = not td.prom || t.live_block;
      metrics = if td.prom && t.live_block then s.metrics ++ (seconds ∷ []) else s.metrics;
    }

-- One update from `resultChan`, against the validator's state of that moment. `running` is false once the worker has returned.
unfoldable pub worker_step : Moment → Config → StatusUpdate → WorkerState → WorkerState
worker_step t td update s = elim t.val_info [
  | none ↦ s
  | some v ↦
      let s1 = record s { sign_state = raise_status v update s.sign_state } in
      let s2 = begin_block t td update (record s1 { cc = record s1.cc { val_info = some v } }) in
      if not update.final then s1 else if s2.running then close_block t td v update s2 else s2
]

-- The worker over a series of updates, until it returns.
unfoldable pub worker_run : Config → List (Moment × StatusUpdate) → WorkerState → WorkerState
worker_run td [] s = s
worker_run td ((t, update) ∷ us) s =
    let rest = worker_run td us (worker_step t td update s) in if s.running then rest else s
