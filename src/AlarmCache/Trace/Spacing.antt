-- ===== src/AlarmCache/Trace/Spacing.antt =====
-- PagerDuty's five-minute rule of `reserveDelivery` (seer/alert.go), by the history of the deliveries.
use tenderduty_nos.Prelude.{
  String, Bool, true, false, not, ◌&&◌, ◌≡◌, ◌↔◌, ◌+◌, refl, arith, if◌then◌else◌, ltb, Time,
  time_at, time_at-insert, inner, inner-insert, insert, str_eq, str_eq→eq,
}
use tenderduty_nos.AlarmCache.Defs.{
  AlertMsg, NotifyDest, pd, dest_eq, AlarmCache, set_sent_map, set_in_flight, is_flapping,
  reserve_delivery, record_accepted, complete_delivery, clear_no_blocks, record_dashboard_alarm,
}
use tenderduty_nos.AlarmCache.Phase.{phase, awaited, reserve_delivery_iff}
use tenderduty_nos.AlarmCache.Trace.{World, reserve, refuse, finish, note, clear, Reach, here, next}

-- An alert, not a resolution, of this chain and message at PagerDuty.
abbrev pub is_page : AlertMsg → NotifyDest → String → String → Bool
is_page msg dest chain m =
    dest_eq dest pd && not msg.resolved && (str_eq chain msg.chain && str_eq m msg.message)

-- When PagerDuty last accepted an alert of this chain and message, by the steps so far; before the first,
-- what the first cache says.
unfoldable pub last_page : {v w : World} → Reach v w → String → String → Time
last_page {v} here chain m = time_at m (inner chain v.cache.flapping_alarms)
last_page (next r (reserve w now x h)) chain m = last_page r chain m
last_page (next r (refuse w now x h)) chain m = last_page r chain m
last_page (next r (finish w now x accepted clock pick)) chain m =
    let before = last_page r chain m in
    if accepted && is_page x.msg x.dest chain m then now else before
last_page (next r (note w now c message resolved)) chain m = last_page r chain m
last_page (next r (clear w c)) chain m = last_page r chain m

abbrev flap : AlarmCache → String → String → Time
flap a chain m = time_at m (inner chain a.flapping_alarms)

module _ (now : Time) (a : AlarmCache) (msg : AlertMsg) (dest : NotifyDest) where
  flap-complete_delivery :
      (accepted : Bool) (chain m : String)
      → flap (complete_delivery now a msg dest accepted) chain m
        ≡ (if accepted && is_page msg dest chain m then now else flap a chain m)
  unfolding complete_delivery set_in_flight record_accepted set_sent_map
  flap-complete_delivery accepted chain m = ground (
    arith,
    inner-insert msg.chain chain (insert msg.message now (inner msg.chain a.flapping_alarms))
        a.flapping_alarms,
    time_at-insert msg.message m now (inner msg.chain a.flapping_alarms),
    str_eq→eq chain msg.chain,
  )

  flap-reserve_delivery :
      (chain m : String) → flap (reserve_delivery now a msg dest).0 chain m ≡ flap a chain m
  unfolding reserve_delivery set_in_flight
  flap-reserve_delivery chain m = ground arith

flap-clear_no_blocks :
    (a : AlarmCache) (c chain m : String) → flap (clear_no_blocks a c) chain m ≡ flap a chain m
unfolding clear_no_blocks
flap-clear_no_blocks a c chain m = ground arith

-- The cache remembers the last page.
flap-last_page :
    {v w : World} (r : Reach v w) (chain m : String) → flap w.cache chain m ≡ last_page r chain m
unfolding last_page record_dashboard_alarm
flap-last_page here chain m = refl
flap-last_page (next r (reserve w now x h)) chain m =
    rw (flap-reserve_delivery now w.cache x.msg x.dest chain m) (flap-last_page r chain m)
flap-last_page (next r (refuse w now x h)) chain m =
    rw (flap-reserve_delivery now w.cache x.msg x.dest chain m) (flap-last_page r chain m)
flap-last_page (next r (finish w now x accepted clock pick)) chain m =
    rw (flap-complete_delivery now w.cache x.msg x.dest accepted chain m, flap-last_page r chain m)
      refl
flap-last_page (next r (note w now c message resolved)) chain m = flap-last_page r chain m
flap-last_page (next r (clear w c)) chain m =
    rw (flap-clear_no_blocks w.cache c chain m) (flap-last_page r chain m)

-- After any interleaving of deliveries and dashboard changes, a delivery is reserved exactly when its
-- message is in the phase that the delivery waits for (an alert: quiet; a resolution: raised) and it is
-- not an alert for PagerDuty less than 300 seconds after PagerDuty last accepted an alert of the same
-- chain and message.
pub reserve_delivery-last_page :
    {v w : World} (r : Reach v w) (now : Time) (msg : AlertMsg) (dest : NotifyDest)
    → ((reserve_delivery now w.cache msg dest).1 ≡ true) ↔ (
        (phase w.cache dest msg.message ≡ awaited msg.resolved)
        × ((dest_eq dest pd
              && not msg.resolved
              && ltb now (last_page r msg.chain msg.message + 300000000000))
            ≡ false))
unfolding is_flapping
reserve_delivery-last_page {v} {w} r now msg dest =
    ground
      (arith, reserve_delivery_iff now w.cache msg dest, flap-last_page r msg.chain msg.message)
