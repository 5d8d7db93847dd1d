-- ===== src/Alerts/StalledTrace.antt =====
-- The stalled alarm of seer/alert.go over any series of blocks and ticks, and what it leaves on the
-- dashboard.
use text.Mathlib.Text.{starts_with}
use text.Mathlib.TextPositions.{starts_with-append}
use tenderduty_nos.Prelude.{
  String, Bool, true, false, not, ◌&&◌, ◌||◌, ◌≡◌, refl, arith, Option, none, some, List, [], ◌∷◌,
  Time, str_eq_refl,
}
use tenderduty_nos.AlarmCache.{stalled_prefix, record_dashboard_alarm}
use tenderduty_nos.AlarmCache.Dashboard.{shows, shows-record_dashboard_alarm, shows-clear_no_blocks}
use tenderduty_nos.Config.{ChainConfig, Config}
use tenderduty_nos.Alerts.Ingress.{Runtime, alert}
use tenderduty_nos.Alerts.Stalled.{
  stalled_switch, stalled_message, check_stalled_alert, record_final_block,
}

-- A final block is recorded, or the watch loop ticks.
pub data Event : Type 0 where
  block tick : Time → Event

pub data Item : Type 0 where
  saw_block raise resolve : Item

abbrev of_switch : Option Bool → List Item → List Item
of_switch none rest = rest
of_switch (some false) rest = raise ∷ rest
of_switch (some true) rest = resolve ∷ rest

unfoldable pub trace : ChainConfig → List Event → List Item
trace cc [] = []
trace cc (block now ∷ es) = saw_block ∷ trace (record_final_block now cc).0 es
trace cc (tick now ∷ es) = let (cc', due) = stalled_switch now cc in of_switch due (trace cc' es)

-- Alerts and resolutions take turns, and a final block stands between an alert and its resolution.
-- `seen` is whether one was seen since the alert.
abbrev pub fits : Bool → Bool → List Item → Bool
fits alarm seen [] = true
fits alarm seen (saw_block ∷ t) = fits alarm (alarm || seen) t
fits alarm seen (raise ∷ t) = not alarm && fits true false t
fits alarm seen (resolve ∷ t) = alarm && seen && fits false false t

-- A resolution is pending only while the alarm is on.
abbrev pub IsLatched : ChainConfig → Type 0
IsLatched cc = cc.stalled_resolution_pending ≡ true → cc.last_block_alarm ≡ true

abbrev FitsAt : ChainConfig → List Item → Type 0
FitsAt cc t = fits cc.last_block_alarm cc.stalled_resolution_pending t ≡ true

stalled_switch-IsLatched :
    (now : Time) (cc : ChainConfig) → IsLatched cc → IsLatched (stalled_switch now cc).0
unfolding stalled_switch
stalled_switch-IsLatched now cc h = ground arith

stalled_switch-Fits :
    (now : Time) (cc : ChainConfig) (t : List Item)
    → IsLatched cc
    → FitsAt (stalled_switch now cc).0 t
    → FitsAt cc (of_switch (stalled_switch now cc).1 t)
unfolding stalled_switch
stalled_switch-Fits now cc t h f = ground arith

record_final_block-Fits :
    (now : Time) (cc : ChainConfig) (t : List Item)
    → IsLatched cc
    → FitsAt (record_final_block now cc).0 t
    → FitsAt cc (saw_block ∷ t)
unfolding record_final_block
record_final_block-Fits now cc t h f = ground arith

record_final_block-IsLatched :
    (now : Time) (cc : ChainConfig) → IsLatched cc → IsLatched (record_final_block now cc).0
unfolding record_final_block
record_final_block-IsLatched now cc h = ground arith

-- Over any series of final blocks and ticks, the alerts of the stalled alarm and its resolutions take
-- turns, and each resolution follows a final block seen since its alert.
pub trace-fits :
    (cc : ChainConfig) (es : List Event)
    → IsLatched cc
    → fits cc.last_block_alarm cc.stalled_resolution_pending (trace cc es) ≡ true
unfolding trace
trace-fits cc [] h = refl
trace-fits cc (block now ∷ es) h =
    record_final_block-Fits now cc (trace (record_final_block now cc).0 es) h
      (trace-fits (record_final_block now cc).0 es (record_final_block-IsLatched now cc h))
trace-fits cc (tick now ∷ es) h =
    stalled_switch-Fits now cc (trace (stalled_switch now cc).0 es) h
      (trace-fits (stalled_switch now cc).0 es (stalled_switch-IsLatched now cc h))

stalled_message-stalled_switch :
    (now : Time) (cc : ChainConfig) → stalled_message (stalled_switch now cc).0 ≡ stalled_message cc
unfolding stalled_message stalled_switch
stalled_message-stalled_switch now cc = ground arith

name-stalled_switch : (now : Time) (cc : ChainConfig) → (stalled_switch now cc).0.name ≡ cc.name
unfolding stalled_switch
name-stalled_switch now cc = ground arith

stalled_message-starts : (cc : ChainConfig) → starts_with (stalled_message cc) stalled_prefix ≡ true
unfolding stalled_message
stalled_message-starts cc = starts_with-append stalled_prefix _

-- What a tick leaves on the dashboard: a raised alarm is shown, and after a resolution no stalled
-- alarm of the chain is shown, whatever its wording.
pub check_stalled_alert-shows :
    (now noted : Time) (td : Config) (cc : ChainConfig) (w : Runtime)
    → w.accepting ≡ true
    → let w' = (check_stalled_alert now noted td cc w).1 in
      ((stalled_switch now cc).1 ≡ some false → shows w'.alarms cc.name (stalled_message cc) ≡ true)
      × ((stalled_switch now cc).1 ≡ some true
          → (m : String) → starts_with m stalled_prefix ≡ true
          → shows w'.alarms cc.name m ≡ false)
unfolding check_stalled_alert alert
check_stalled_alert-shows now noted td cc w open' =
    let cc' = (stalled_switch now cc).0 in
    (
      λ due. ground (
        arith,
        stalled_message-stalled_switch now cc,
        name-stalled_switch now cc,
        str_eq_refl cc.name,
        str_eq_refl (stalled_message cc),
        shows-record_dashboard_alarm noted w.alarms cc.name (stalled_message cc) cc.name
            (stalled_message cc) false,
      ),
      λ due m starts. ground (
        arith,
        stalled_message-stalled_switch now cc,
        name-stalled_switch now cc,
        str_eq_refl cc.name,
        shows-clear_no_blocks
            (record_dashboard_alarm noted w.alarms cc.name (stalled_message cc) true) cc.name
            cc.name m,
      ),
    )
