-- ===== src/Config.antt =====
-- The data model of seer/types.go and seer/validator.go: the configuration and the state of a
-- monitored chain.
--
-- Counts, heights and durations in minutes are the source's `int` and `int64`; they are taken
-- non-negative, and below 2 ^ 53 where the source keeps them in a float64. Block results, which hold
-- -1, are integers. Locks, channels and the clients' internals are no fields: a client is the
-- endpoint that it was opened for.
use tenderduty_nos.Prelude.{ℕ, ℤ, String, Bool, List, Map, Option, Time}

pub record PdConfig : Type 0 where
  pub enabled : Bool
  pub api_key : String
  pub default_severity : String

pub record DiscordConfig : Type 0 where
  pub enabled : Bool
  pub webhook : String
  pub mentions : List String

pub record TeleConfig : Type 0 where
  pub enabled : Bool
  pub api_key : String
  pub channel : String
  pub mentions : List String

pub record SlackConfig : Type 0 where
  pub enabled : Bool
  pub webhook : String
  pub mentions : List String

pub record AlertConfig : Type 0 where
  pub stalled : ℕ
  pub stalled_alerts : Bool
  pub consecutive_missed : ℕ
  pub consecutive_priority : String
  pub consecutive_alerts : Bool
  pub window : ℕ
  pub percentage_priority : String
  pub percentage_alerts : Bool
  pub alert_if_inactive : Bool
  pub alert_if_no_servers : Bool
  pub pagerduty_alerts : Bool
  pub discord_alerts : Bool
  pub telegram_alerts : Bool
  pub pagerduty : PdConfig
  pub discord : DiscordConfig
  pub telegram : TeleConfig
  pub slack : SlackConfig

pub record NodeConfig : Type 0 where
  pub url : String
  pub alert_if_down : Bool
  pub down : Bool
  pub was_down : Bool
  pub syncing : Bool
  pub last_msg : String
  pub down_since : Time

pub record ValInfo : Type 0 where
  pub moniker : String
  pub bonded : Bool
  pub jailed : Bool
  pub tombstoned : Bool
  pub missed : ℕ
  pub window : ℕ
  pub conspub : List ℕ
  pub valcons : String

pub record ChainConfig : Type 0 where
  pub name : String
  pub client : Option String
  pub no_nodes : Bool
  pub val_info : Option ValInfo
  pub last_val_info : Option ValInfo
  pub blocks_results : List ℤ
  pub last_error : String
  pub last_block_time : Time
  pub last_block_alarm : Bool
  pub stalled_resolution_pending : Bool
  pub percentage_alarm : Bool
  pub last_block_num : ℕ
  pub active_alerts : ℕ
  pub stat_total_signs : ℕ
  pub stat_total_props : ℕ
  pub stat_total_miss : ℕ
  pub stat_prevote_miss : ℕ
  pub stat_precommit_miss : ℕ
  pub stat_consecutive_miss : ℕ
  pub chain_id : String
  pub val_address : String
  pub valcons_override : String
  pub extra_info : String
  pub alerts : AlertConfig
  pub public_fallback : Bool
  pub nodes : List NodeConfig

pub record Config : Type 0 where
  pub enable_dash : Bool
  pub listen : String
  pub hide_logs : Bool
  pub node_down_min : ℕ
  pub node_down_severity : String
  pub prom : Bool
  pub prometheus_listen_port : ℕ
  pub pagerduty : PdConfig
  pub discord : DiscordConfig
  pub telegram : TeleConfig
  pub slack : SlackConfig
  pub chains : Map ChainConfig
