-- ===== src/Metrics.antt =====
-- The gauges of seer/prometheus.go and mkUpdate of seer/types.go. The gauge library is not modelled:
-- `With` panics unless it is given exactly the label names of the registration. A value is a count,
-- or the time from one moment to another, which the source turns into seconds.
use tenderduty_nos.Prelude.{
  ℕ, String, Bool, true, false, ◌≡◌, arith, if◌then◌else◌, Option, none, some, List, [], ◌∷◌, Time,
  map,
}
use tenderduty_nos.Config.{ChainConfig, ValInfo}

pub data MetricType : Type 0 where
  signed proposed missed prevote precommit consecutive window_missed window_size : MetricType
  last_block_seconds last_block_seconds_not_final total_nodes unhealthy_nodes : MetricType
  node_lag_seconds node_down_seconds : MetricType

pub data Value : Type 0 where
  count : ℕ → Value
  elapsed : Time → Time → Value

pub record PromUpdate : Type 0 where
  pub metric : MetricType
  pub counter : Value
  pub name : String
  pub chain_id : String
  pub moniker : String
  pub endpoint : String

abbrev pub moniker_of : Option ValInfo → String
moniker_of none = ""
moniker_of (some v) = v.moniker

unfoldable pub mk_update : ChainConfig → MetricType → Value → String → PromUpdate
mk_update cc t v node = record {
  metric = t;
  counter = v;
  name = cc.name;
  chain_id = cc.chain_id;
  moniker = moniker_of cc.val_info;
  endpoint = node;
}

abbrev pub is_node_metric : MetricType → Bool
is_node_metric node_lag_seconds = true
is_node_metric node_down_seconds = true
is_node_metric _ = false

-- The labels that `setStat` hands to `With`.
unfoldable pub labels : PromUpdate → List (String × String)
labels u =
    ("name", u.name)
    ∷ ("chain_id", u.chain_id)
    ∷ ("moniker", u.moniker)
    ∷ (if is_node_metric u.metric then ("endpoint", u.endpoint) ∷ [] else [])

abbrev chain_labels : List String
chain_labels = "name" ∷ "chain_id" ∷ "moniker" ∷ []

abbrev host_labels : List String
host_labels = "name" ∷ "chain_id" ∷ "moniker" ∷ "endpoint" ∷ []

-- The label names that `prometheusExporter` registers each gauge with.
unfoldable pub registered_labels : MetricType → List String
registered_labels signed = chain_labels
registered_labels proposed = chain_labels
registered_labels missed = chain_labels
registered_labels prevote = chain_labels
registered_labels precommit = chain_labels
registered_labels consecutive = chain_labels
registered_labels window_missed = chain_labels
registered_labels window_size = chain_labels
registered_labels last_block_seconds = chain_labels
registered_labels last_block_seconds_not_final = chain_labels
registered_labels total_nodes = chain_labels
registered_labels unhealthy_nodes = chain_labels
registered_labels node_lag_seconds = host_labels
registered_labels node_down_seconds = host_labels

-- Every update, of every metric, carries exactly the label names that its gauge is registered with,
-- so `With` does not panic.
pub labels-registered : (u : PromUpdate) → map (λ l. l.0) (labels u) ≡ registered_labels u.metric
unfolding labels registered_labels
labels-registered u = ground arith
