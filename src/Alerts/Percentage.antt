-- ===== src/Alerts/Percentage.antt =====
-- The slashing-window alarm of seer/alert.go: checkPercentageAlert. Go's float64 is the parameter
-- `Float`: the conversion of an integer, `*`, `/` and `<`.
use tenderduty_nos.Prelude.{
  ℕ, String, ◌<>◌, Bool, true, false, not, ◌&&◌, ◌||◌, if◌then◌else◌, Option, none, some, Time,
  ◌==◌, decimal,
}
use tenderduty_nos.AlarmCache.{get_count}
use tenderduty_nos.Config.{ChainConfig, Config, ValInfo}
use tenderduty_nos.Alerts.Ingress.{Runtime, alert}

pub record Float : Type 1 where
  pub F : Type 0
  pub of_int : ℕ → F
  pub mul : F → F → F
  pub div : F → F → F
  pub lt : F → F → Bool

-- Where an alert is due, its validator and whether it is a resolution.
abbrev pub PercentageDue : Type 0
PercentageDue = Option (ValInfo × Bool)

unfoldable pub percent_missed : (fl : Float) → ValInfo → fl.F
percent_missed fl v = fl.div (fl.mul (fl.of_int 100) (fl.of_int v.missed)) (fl.of_int v.window)

unfoldable pub percentage_switch : Float → ChainConfig → ChainConfig × PercentageDue
percentage_switch fl cc = elim cc.val_info [
  | none ↦ (cc, none)
  | some v ↦
      if not cc.alerts.percentage_alerts || v.window == 0
      then (cc, none)
      else if not cc.percentage_alarm && fl.lt (fl.of_int cc.alerts.window) (percent_missed fl v)
      then (record cc { percentage_alarm = true }, some (v, false))
      else if cc.percentage_alarm && fl.lt (percent_missed fl v) (fl.of_int cc.alerts.window)
      then (record cc { percentage_alarm = false }, some (v, true))
      else (cc, none)
]

unfoldable pub percentage_message : ChainConfig → ValInfo → String
percentage_message cc v =
    v.moniker
    <> (" has missed > "
        <> (decimal cc.alerts.window <> ("% of the slashing window's blocks on " <> cc.chain_id)))

unfoldable pub check_percentage_alert :
    Time → Float → Config → ChainConfig → Runtime → ChainConfig × Runtime
check_percentage_alert now fl td cc w =
    let (cc', due) = percentage_switch fl cc in
    elim due [
      | none ↦ (cc', w)
      | some (v, resolved) ↦
          let severity = if resolved then "info" else cc'.alerts.percentage_priority in
          let w' =
            alert now td cc' (percentage_message cc' v) severity resolved
              (some (v.valcons <> "percent")) w in
          (record cc' { active_alerts = get_count w'.alarms cc'.name }, w')
    ]
