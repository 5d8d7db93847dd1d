-- ===== src/Alerts/Ingress.antt =====
-- `Config.alert` of seer/alert.go and the alert ingress of seer/runtime_state.go.
--
-- `alert_chan` is the queue that the notification worker drains, oldest first; a full channel delays
-- the sender and loses nothing. The alarms that the code reaches as `alarms`, `td.alarms` and
-- `td.alarmState()` are one cache (loadConfig sets them to one), the field `alarms`.
use tenderduty_nos.Prelude.{
  ℕ, ◌+◌, ◌-◌, String, Bool, true, false, ◌&&◌, if◌then◌else◌, List, [], ◌∷◌, ◌++◌, Option, none,
  some, Time, join,
}
use tenderduty_nos.AlarmCache.{AlertMsg, AlarmCache, record_dashboard_alarm}
use tenderduty_nos.Config.{ChainConfig, Config}

pub record Runtime : Type 0 where
  pub alarms : AlarmCache
  pub accepting : Bool
  -- The wait group of the alerts on their way into the channel.
  pub ingress : ℕ
  pub alert_chan : List AlertMsg

unfoldable pub begin_alert_ingress : Runtime → Runtime × Bool
begin_alert_ingress w =
    if w.accepting then (record w { ingress = w.ingress + 1 }, true) else (w, false)

unfoldable pub finish_alert_ingress : Runtime → Runtime
finish_alert_ingress w = record w { ingress = w.ingress - 1 }

unfoldable pub start_alert_ingress : Runtime → Runtime
start_alert_ingress w = record w { accepting = true }

unfoldable pub stop_alert_ingress : Runtime → Runtime
stop_alert_ingress w = record w { accepting = false }

unfoldable pub enqueue_alert : AlertMsg → Runtime → Runtime × Bool
unfolding begin_alert_ingress finish_alert_ingress
enqueue_alert message w =
    let (w', ok) = begin_alert_ingress w in
    if ok
    then (finish_alert_ingress (record w' { alert_chan = w'.alert_chan ++ (message ∷ []) }), true)
    else (w', false)

-- The message that `alert` builds. `chain` is `c.Chains[chainName]`, which is the chain that calls:
-- validateConfig gives each chain its key for a name.
unfoldable pub alert_msg : Config → ChainConfig → String → String → Bool → Option String → AlertMsg
alert_msg c chain message severity resolved id =
    let a = chain.alerts in
    record {
      pd = c.pagerduty.enabled && a.pagerduty.enabled;
      disc = c.discord.enabled && a.discord.enabled;
      tg = c.telegram.enabled && a.telegram.enabled;
      slk = c.slack.enabled && a.slack.enabled;
      severity = severity;
      resolved = resolved;
      chain = chain.name;
      message = message;
      unique_id = elim id [ none ↦ chain.val_address | some i ↦ i ];
      key = a.pagerduty.api_key;
      tg_channel = a.telegram.channel;
      tg_key = a.telegram.api_key;
      tg_mentions = join a.telegram.mentions " ";
      disc_hook = a.discord.webhook;
      disc_mentions = join a.discord.mentions " ";
      slk_hook = a.slack.webhook;
      slk_mentions = "";
    }

unfoldable pub alert :
    Time → Config → ChainConfig → String → String → Bool → Option String → Runtime → Runtime
unfolding begin_alert_ingress finish_alert_ingress
alert now c chain message severity resolved id w =
    let (w', ok) = begin_alert_ingress w in
    let a = alert_msg c chain message severity resolved id in
    let sent = record w' { alert_chan = w'.alert_chan ++ (a ∷ []) } in
    if ok
    then finish_alert_ingress (record sent {
      alarms = record_dashboard_alarm now sent.alarms chain.name message resolved;
    })
    else w'
