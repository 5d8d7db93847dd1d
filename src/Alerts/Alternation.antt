-- ===== src/Alerts/Alternation.antt =====
-- The percentage alarm of seer/alert.go over any series of validator refreshes.
use tenderduty_nos.Prelude.{
  Bool, true, false, not, ◌&&◌, ◌≡◌, refl, ◌↔◌, arith, Option, none, some, List, [], ◌∷◌, ◌==◌,
}
use tenderduty_nos.Config.{ChainConfig, ValInfo}
use tenderduty_nos.Alerts.Percentage.{Float, PercentageDue, percent_missed, percentage_switch}

-- The alerts of a latched alarm, `true` for a resolution: from the state `alarm`, each is the other
-- of the two.
abbrev pub alternating : Bool → List Bool → Bool
alternating alarm [] = true
alternating true (resolved ∷ rest) = resolved && alternating false rest
alternating false (resolved ∷ rest) = not resolved && alternating true rest

abbrev emitted : PercentageDue → List Bool → List Bool
emitted none rest = rest
emitted (some (v, resolved)) rest = resolved ∷ rest

-- The alerts of `checkPercentageAlert` as the validator's state is refreshed.
unfoldable pub percentage_alerts : Float → ChainConfig → List (Option ValInfo) → List Bool
percentage_alerts fl cc [] = []
percentage_alerts fl cc (v ∷ vs) =
    let (cc', due) = percentage_switch fl (record cc { val_info = v }) in
    emitted due (percentage_alerts fl cc' vs)

switch-alarm :
    (fl : Float) (cc : ChainConfig) (rest : List Bool)
    → alternating (percentage_switch fl cc).0.percentage_alarm rest ≡ true
    → alternating cc.percentage_alarm (emitted (percentage_switch fl cc).1 rest) ≡ true
unfolding percentage_switch
switch-alarm fl cc rest h = ground arith

-- The percentage alarm raises and resolves in turn, whatever the validator's numbers do: no alert is
-- raised twice, and none is resolved that was not raised.
pub percentage_alerts-alternating :
    (fl : Float) (cc : ChainConfig) (vs : List (Option ValInfo))
    → alternating cc.percentage_alarm (percentage_alerts fl cc vs) ≡ true
unfolding percentage_alerts
percentage_alerts-alternating fl cc [] = refl
percentage_alerts-alternating fl cc (v ∷ vs) =
    let cc' = record cc { val_info = v } in
    switch-alarm fl cc' (percentage_alerts fl (percentage_switch fl cc').0 vs)
      (percentage_alerts-alternating fl (percentage_switch fl cc').0 vs)

-- When the alarm changes: it is raised above the threshold and resolved below it, and exactly at the
-- threshold, with alerts off, or with no window it stays.
pub percentage_switch_iff :
    (fl : Float) (cc : ChainConfig) (v : ValInfo)
    → cc.val_info ≡ some v
    → ((percentage_switch fl cc).1 ≡ some (v, false)) ↔ (
        (cc.alerts.percentage_alerts ≡ true)
        × ((v.window == 0) ≡ false)
        × (cc.percentage_alarm ≡ false)
        × (fl.lt (fl.of_int cc.alerts.window) (percent_missed fl v) ≡ true))
unfolding percentage_switch
percentage_switch_iff fl cc v h = ground arith
