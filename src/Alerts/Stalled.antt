-- ===== src/Alerts/Stalled.antt =====
-- The stalled-chain alarm of seer/alert.go: checkStalledAlert, recordFinalBlock,
-- lastFinalBlockTime.
use tenderduty_nos.Prelude.{
  ◌*◌, String, ◌<>◌, Bool, true, false, not, ◌&&◌, if◌then◌else◌, Option, none, some, Time, is_zero,
  is_before_ago, minute, decimal,
}
use tenderduty_nos.AlarmCache.{stalled_prefix, clear_no_blocks}
use tenderduty_nos.Config.{ChainConfig, Config, ValInfo}
use tenderduty_nos.Alerts.Ingress.{Runtime, alert}

abbrev pub valcons_of : Option ValInfo → String
valcons_of none = ""
valcons_of (some v) = v.valcons

unfoldable pub stalled_message : ChainConfig → String
stalled_message cc =
    stalled_prefix
    <> (" " <> (cc.chain_id <> (" in " <> (decimal cc.alerts.stalled <> " minutes"))))

-- The `switch`, under the chain's lock: the new state, and `resolved` where an alert is due.
unfoldable pub stalled_switch : Time → ChainConfig → ChainConfig × Option Bool
stalled_switch now cc =
    if cc.alerts.stalled_alerts
      && not cc.last_block_alarm
      && not (is_zero cc.last_block_time)
      && is_before_ago cc.last_block_time (cc.alerts.stalled * minute) now
    then (record cc { last_block_alarm = true }, some false)
    else if cc.alerts.stalled_alerts && cc.last_block_alarm && cc.stalled_resolution_pending
    then (record cc { last_block_alarm = false; stalled_resolution_pending = false }, some true)
    else (cc, none)

-- `noted` is the time at which the dashboard alarm is recorded.
unfoldable pub check_stalled_alert :
    Time → Time → Config → ChainConfig → Runtime → ChainConfig × Runtime
check_stalled_alert now noted td cc w =
    let (cc', due) = stalled_switch now cc in
    elim due [
      | none ↦ (cc', w)
      | some resolved ↦
          let severity = if resolved then "info" else "critical" in
          let w' =
            alert noted td cc' (stalled_message cc') severity resolved
              (some (valcons_of cc'.val_info)) w in
          (cc', if resolved then record w' { alarms = clear_no_blocks w'.alarms cc'.name } else w')
    ]

unfoldable pub record_final_block : Time → ChainConfig → ChainConfig × Time
record_final_block now cc =
    let cc' = record cc { last_block_time = now } in
    (
      if cc.last_block_alarm then record cc' { stalled_resolution_pending = true } else cc',
      cc.last_block_time,
    )

unfoldable pub last_final_block_time : ChainConfig → Time
last_final_block_time cc = cc.last_block_time
