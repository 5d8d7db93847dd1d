-- ===== src/Examples/Fixtures.antt =====
-- The data of the examples.
use tenderduty_nos.Prelude.{String, Bool, true, false, none, some, [], ◌∷◌, replicate, Time, negsuc}
use tenderduty_nos.AlarmCache.{AlertMsg, new_alarm_cache}
use tenderduty_nos.Config.{
  PdConfig, DiscordConfig, TeleConfig, SlackConfig, AlertConfig, NodeConfig, ValInfo, ChainConfig,
  Config,
}
use tenderduty_nos.Alerts.{Runtime}

abbrev pub noon : Time
noon = 63900000000000000000

abbrev pub alert_for : String → Bool → AlertMsg
alert_for message resolved = record {
  pd = true;
  disc = true;
  tg = true;
  slk = true;
  severity = "critical";
  resolved = resolved;
  chain = "osmosis";
  message = message;
  unique_id = "valcons1";
  key = "k";
  tg_channel = "c";
  tg_key = "t";
  tg_mentions = "";
  disc_hook = "https://d";
  disc_mentions = "";
  slk_hook = "https://s";
  slk_mentions = "";
}

abbrev pub down_alert : AlertMsg
down_alert = alert_for "node down" false

abbrev pub down_resolved : AlertMsg
down_resolved = alert_for "node down" true

abbrev pub pd_config : PdConfig
pd_config = record { enabled = true; api_key = "k"; default_severity = "warning" }

abbrev pub discord_config : DiscordConfig
discord_config = record { enabled = true; webhook = "https://d"; mentions = [] }

abbrev pub tele_config : TeleConfig
tele_config = record { enabled = true; api_key = "t"; channel = "c"; mentions = [] }

abbrev pub slack_config : SlackConfig
slack_config = record { enabled = true; webhook = "https://s"; mentions = [] }

abbrev pub alert_config : AlertConfig
alert_config = record {
  stalled = 10;
  stalled_alerts = true;
  consecutive_missed = 5;
  consecutive_priority = "critical";
  consecutive_alerts = true;
  window = 10;
  percentage_priority = "warning";
  percentage_alerts = true;
  alert_if_inactive = true;
  alert_if_no_servers = true;
  pagerduty_alerts = false;
  discord_alerts = false;
  telegram_alerts = false;
  pagerduty = pd_config;
  discord = discord_config;
  telegram = tele_config;
  slack = slack_config;
}

abbrev pub node : String → NodeConfig
node url = record {
  url = url;
  alert_if_down = true;
  down = false;
  was_down = false;
  syncing = false;
  last_msg = "";
  down_since = 0;
}

abbrev pub validator : ValInfo
validator = record {
  moniker = "val";
  bonded = true;
  jailed = false;
  tombstoned = false;
  missed = 20;
  window = 100;
  conspub = [];
  valcons = "osmovalcons1";
}

abbrev pub chain : ChainConfig
chain = record {
  name = "osmosis";
  client = some "https://a";
  no_nodes = false;
  val_info = some validator;
  last_val_info = none;
  blocks_results = replicate 4 (negsuc 0);
  last_error = "";
  last_block_time = 63800000000000000000;
  last_block_alarm = false;
  stalled_resolution_pending = false;
  percentage_alarm = false;
  last_block_num = 0;
  active_alerts = 0;
  stat_total_signs = 0;
  stat_total_props = 0;
  stat_total_miss = 0;
  stat_prevote_miss = 0;
  stat_precommit_miss = 0;
  stat_consecutive_miss = 0;
  chain_id = "osmosis-1";
  val_address = "osmovaloper1";
  valcons_override = "";
  extra_info = "";
  alerts = alert_config;
  public_fallback = false;
  nodes = node "https://a" ∷ node "https://b" ∷ [];
}

abbrev pub settings : Config
settings = record {
  enable_dash = true;
  listen = "8888";
  hide_logs = false;
  node_down_min = 3;
  node_down_severity = "critical";
  prom = true;
  prometheus_listen_port = 28686;
  pagerduty = pd_config;
  discord = discord_config;
  telegram = tele_config;
  slack = slack_config;
  chains = ("osmosis", chain) ∷ [];
}

abbrev pub runtime : Runtime
runtime = record { alarms = new_alarm_cache; accepting = true; ingress = 0; alert_chan = [] }
