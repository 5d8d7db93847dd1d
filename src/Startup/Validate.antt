-- ===== src/Startup/Validate.antt =====
-- validateConfig (seer/types.go). `bad_url` is the answer of url.Parse for the dashboard's address. A nil
-- list of block results is the empty list. The refresh of the chain registry that it starts is I/O.
use tenderduty_nos.Prelude.{
  ℕ, String, ◌<>◌, Bool, true, false, not, ◌&&◌, ◌||◌, if◌then◌else◌, some, List, [], ◌∷◌, ◌++◌,
  ltb, ℤ, negsuc, Map, length, replicate, str_eq, contains, pad_left,
}
use tenderduty_nos.Config.{
  PdConfig, DiscordConfig, TeleConfig, SlackConfig, AlertConfig, ChainConfig, Config, ValInfo,
}
use tenderduty_nos.Blocks.{ChainStatus}

abbrev pub show_blocks : ℕ
show_blocks = 512

abbrev pub not_connected_info : ValInfo
not_connected_info = record {
  moniker = "not connected";
  bonded = false;
  jailed = false;
  tombstoned = false;
  missed = 0;
  window = 0;
  conspub = [];
  valcons = "";
}

-- The deprecated switches.
unfoldable pub with_flags : AlertConfig → AlertConfig
with_flags a = record a {
  discord =
      if a.discord_alerts && not a.discord.enabled
      then record a.discord { enabled = true }
      else a.discord;
  telegram =
      if a.telegram_alerts && not a.telegram.enabled
      then record a.telegram { enabled = true }
      else a.telegram;
  pagerduty =
      if a.pagerduty_alerts && not a.pagerduty.enabled
      then record a.pagerduty { enabled = true }
      else a.pagerduty;
}

-- The defaults of blank settings, one destination each.
unfoldable pub default_discord : DiscordConfig → DiscordConfig → DiscordConfig
default_discord c d =
    if str_eq d.webhook "" then record d { webhook = c.webhook; mentions = c.mentions } else d

unfoldable pub default_slack : SlackConfig → SlackConfig → SlackConfig
default_slack c s =
    if str_eq s.webhook "" then record s { webhook = c.webhook; mentions = c.mentions } else s

unfoldable pub default_telegram : TeleConfig → TeleConfig → TeleConfig
default_telegram c t =
    let t' =
      if str_eq t.api_key "" then record t { api_key = c.api_key; mentions = c.mentions } else t in
    if str_eq t'.channel "" then record t' { channel = c.channel } else t'

unfoldable pub default_pagerduty : PdConfig → PdConfig → PdConfig
default_pagerduty c p =
    if str_eq p.api_key ""
    then record p { api_key = c.api_key; default_severity = c.default_severity }
    else p

unfoldable pub with_defaults : Config → AlertConfig → AlertConfig
unfolding default_discord default_slack default_telegram default_pagerduty
with_defaults c a = record a {
  discord = default_discord c.discord a.discord;
  slack = default_slack c.slack a.slack;
  telegram = default_telegram c.telegram a.telegram;
  pagerduty = default_pagerduty c.pagerduty a.pagerduty;
}

unfoldable pub initial_blocks : List ℤ → List ℤ
initial_blocks [] = replicate show_blocks (negsuc 0)
initial_blocks (b ∷ bs) = b ∷ bs

-- The chain `k` as the loop completes it.
unfoldable pub complete_chain : Config → String → ChainConfig → ChainConfig
unfolding with_flags with_defaults initial_blocks
complete_chain c k v = record v {
  blocks_results = initial_blocks v.blocks_results;
  name = if str_eq v.name "" then k else v.name;
  val_info = some not_connected_info;
  alerts = with_defaults c (with_flags v.alerts);
}

abbrev warn : String → String → String
warn k text = "warn: " <> (pad_left 20 k <> text)

abbrev pub slack_warning : String → String
slack_warning k = warn k " is configured for slack alerts, but it is not enabled"

abbrev pub discord_warning : String → String
discord_warning k = warn k " is configured for discord alerts, but it is not enabled"

abbrev pub pagerduty_warning : String → String
pagerduty_warning k = warn k " is configured for pagerduty alerts, but it is not enabled"

abbrev pub telegram_warning : String → String
telegram_warning k = warn k " is configured for telegram alerts, but it is not enabled"

-- The `switch` on a completed chain, whose cases fall through.
unfoldable pub chain_warnings : Config → String → ChainConfig → List String
chain_warnings c k v =
    let a = v.alerts in
    let from_telegram = telegram_warning k ∷ [] in
    let from_pagerduty = pagerduty_warning k ∷ from_telegram in
    let from_discord = discord_warning k ∷ from_pagerduty in
    let silent = warn k " has no notifications configured" ∷ [] in
    if a.slack.enabled && not c.slack.enabled
    then slack_warning k ∷ from_discord
    else if a.discord.enabled && not c.discord.enabled
    then from_discord
    else if a.pagerduty.enabled && not c.pagerduty.enabled
    then from_pagerduty
    else if a.telegram.enabled && not c.telegram.enabled
    then from_telegram
    else if not a.consecutive_alerts
        && not a.percentage_alerts
        && not a.alert_if_inactive
        && not a.alert_if_no_servers
    then warn k " has no alert types configured" ∷ silent
    else if not a.pagerduty.enabled
        && not a.discord.enabled
        && not a.telegram.enabled
        && not a.slack.enabled
    then silent
    else []

unfoldable pub initial_status : ChainConfig → ChainStatus
initial_status v = record {
  msg_type = "status";
  name = v.name;
  chain_id = v.chain_id;
  moniker = "not connected";
  bonded = false;
  jailed = false;
  tombstoned = false;
  missed = 0;
  window = 0;
  nodes = length v.nodes;
  healthy_nodes = 0;
  active_alerts = 0;
  height = 0;
  last_error = "";
  blocks = v.blocks_results;
}

pub record Validated : Type 0 where
  pub chains : Map ChainConfig
  pub problems : List String
  pub statuses : List ChainStatus

unfoldable pub validate_chains : Config → Map ChainConfig → Validated
unfolding complete_chain chain_warnings initial_status
validate_chains c [] = record { chains = []; problems = []; statuses = [] }
validate_chains c ((k, v) ∷ rest) =
    let v' = complete_chain c k v in
    let r = validate_chains c rest in
    record {
      chains = (k, v') ∷ r.chains;
      problems = chain_warnings c k v' ++ r.problems;
      statuses = if c.enable_dash then initial_status v' ∷ r.statuses else r.statuses;
    }

-- The regular expression `[+_-]`.
unfoldable pub is_oauth_like : String → Bool
is_oauth_like key = contains key "+" || contains key "_" || contains key "-"

abbrev listen_problem : Config → String
listen_problem c = "error: The listen URL " <> (c.listen <> " does not appear to be valid")

abbrev key_problem : String
key_problem =
    "error: The Pagerduty key provided appears to be an Oauth token, not a V2 Events API key."

abbrev hasty_problem : String
hasty_problem =
    "warning: setting 'node_down_alert_minutes' to less than three minutes might result in false alarms"

-- Whether the configuration is refused, and what its check found and completed.
unfoldable pub validate_config : Bool → Config → Bool × Validated
unfolding validate_chains is_oauth_like
validate_config bad_url c =
    let bad_listen = c.enable_dash && bad_url in
    let bad_key = c.pagerduty.enabled && is_oauth_like c.pagerduty.api_key in
    let r = validate_chains c c.chains in
    let first = if bad_listen then listen_problem c ∷ [] else [] in
    let second = if bad_key then key_problem ∷ [] else [] in
    let third = if ltb c.node_down_min 3 then hasty_problem ∷ [] else [] in
    (bad_listen || bad_key, record r { problems = first ++ (second ++ (third ++ r.problems)) })
