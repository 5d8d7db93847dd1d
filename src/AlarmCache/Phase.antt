-- ===== src/AlarmCache/Phase.antt =====
-- What the cache promises about one message at one destination: a machine of four phases, which
-- `reserveDelivery` and `completeDelivery` of seer/alert.go implement.
use tenderduty_nos.Prelude.{
  String, Bool, true, false, not, ◌&&◌, ◌||◌, ◌≡◌, ◌<◌, ◌↔◌, arith, if◌then◌else◌, Map, has, insert,
  erase, str_eq→eq, has-insert, has-erase, time_at, time_at-insert, time_at-erase, Time, is_zero,
  str_eq,
}
use tenderduty_nos.AlarmCache.Defs.{
  AlertMsg, NotifyDest, dest_eq, AlarmCache, sent_map, set_sent_map, set_in_flight, is_due,
  is_flapping, reserve_delivery, record_accepted, complete_delivery, clear_no_blocks,
  record_dashboard_alarm,
}

-- Nothing is known of the message; its alert is being sent; its alert was accepted; its
-- resolution is being sent.
pub data Phase : Type 0 where
  quiet raising raised resolving : Phase

abbrev phase_of : Bool → Bool → Phase
phase_of false true = quiet
phase_of true true = raising
phase_of false false = raised
phase_of true false = resolving

pub phase : AlarmCache → NotifyDest → String → Phase
phase a dest message =
    phase_of (has message (a.in_flight dest)) (is_zero (time_at message (sent_map a dest)))

-- The key that a delivery works on.
abbrev pub is_key : AlertMsg → NotifyDest → NotifyDest → String → Bool
is_key msg dest d message = dest_eq dest d && str_eq message msg.message

sent_map-set_sent_map :
    (a : AlarmCache) (dest d : NotifyDest) (m : Map Time)
    → sent_map (set_sent_map a dest m) d ≡ (if dest_eq dest d then m else sent_map a d)
unfolding sent_map set_sent_map
sent_map-set_sent_map a dest d m = ground arith

pub dest_eq→eq : (d e : NotifyDest) → dest_eq d e ≡ true → d ≡ e
dest_eq→eq d e h = ground arith

in_flight-set_sent_map :
    (a : AlarmCache) (dest d : NotifyDest) (m : Map Time)
    → (set_sent_map a dest m).in_flight d ≡ a.in_flight d
unfolding set_sent_map
in_flight-set_sent_map a dest d m = ground arith

sent_map-record_accepted :
    (now : Time) (a : AlarmCache) (msg : AlertMsg) (dest d : NotifyDest) (m : String)
    → time_at m (sent_map (record_accepted now a msg dest) d) ≡ (
        if is_key msg dest d m then (if msg.resolved then 0 else now) else time_at m (sent_map a d))
unfolding record_accepted sent_map
sent_map-record_accepted now a msg dest d m = ground (
  arith,
  time_at-insert msg.message m now (sent_map a dest),
  time_at-erase msg.message m (sent_map a dest),
  dest_eq→eq dest d,
)

sent_map-set_in_flight :
    (a : AlarmCache) (dest d : NotifyDest) (m : Map (Unit {0}))
    → sent_map (set_in_flight a dest m) d ≡ sent_map a d
unfolding sent_map set_in_flight
sent_map-set_in_flight a dest d m = ground arith

in_flight-record_accepted :
    (now : Time) (a : AlarmCache) (msg : AlertMsg) (dest d : NotifyDest)
    → (record_accepted now a msg dest).in_flight d ≡ a.in_flight d
unfolding record_accepted
in_flight-record_accepted now a msg dest d = ground arith

module _ (now : Time) (a : AlarmCache) (msg : AlertMsg) (dest d : NotifyDest) (m : String) where
  pub has-complete_delivery :
      (accepted : Bool)
      → has m ((complete_delivery now a msg dest accepted).in_flight d)
        ≡ not (is_key msg dest d m) && has m (a.in_flight d)
  unfolding complete_delivery set_in_flight
  has-complete_delivery accepted = ground (
    arith,
    in_flight-record_accepted now (set_in_flight a dest (erase msg.message (a.in_flight dest))) msg
        dest d,
    has-erase msg.message m (a.in_flight dest),
    dest_eq→eq dest d,
  )

  pub sent_map-complete_delivery :
      (accepted : Bool)
      → time_at m (sent_map (complete_delivery now a msg dest accepted) d) ≡ (
          if accepted && is_key msg dest d m
          then (if msg.resolved then 0 else now)
          else time_at m (sent_map a d))
  unfolding complete_delivery set_in_flight
  sent_map-complete_delivery accepted = ground (
    arith,
    sent_map-record_accepted now (set_in_flight a dest (erase msg.message (a.in_flight dest))) msg
        dest d m,
    sent_map-set_in_flight a dest d (erase msg.message (a.in_flight dest)),
  )

  pub has-reserve_delivery :
      has m ((reserve_delivery now a msg dest).0.in_flight d)
      ≡ ((reserve_delivery now a msg dest).1 && is_key msg dest d m) || has m (a.in_flight d)
  unfolding reserve_delivery set_in_flight
  has-reserve_delivery =
      ground (arith, has-insert msg.message m tt (a.in_flight dest), dest_eq→eq dest d)

  pub sent_map-reserve_delivery : sent_map (reserve_delivery now a msg dest).0 d ≡ sent_map a d
  unfolding reserve_delivery set_in_flight
  sent_map-reserve_delivery =
      ground (arith, sent_map-set_in_flight a dest d (insert msg.message tt (a.in_flight dest)))

-- The phase that an alert, or a resolution, waits for, and the one while it is being sent.
abbrev pub awaited : Bool → Phase
awaited false = quiet
awaited true = raised

abbrev pub claimed : Bool → Phase
claimed false = raising
claimed true = resolving

-- The phase after the send, by whether the remote service accepted it.
abbrev pub settled : Bool → Bool → Phase
settled false accepted = if accepted then raised else quiet
settled true accepted = if accepted then quiet else raised

-- A delivery is reserved exactly when the message is in the phase that the delivery waits for (an
-- alert: quiet; a resolution: raised) and PagerDuty's five-minute rule does not hold it back.
pub reserve_delivery_iff :
    (now : Time) (a : AlarmCache) (msg : AlertMsg) (dest : NotifyDest)
    → ((reserve_delivery now a msg dest).1 ≡ true)
      ↔ ((phase a dest msg.message ≡ awaited msg.resolved) × (is_flapping now a msg dest ≡ false))
unfolding reserve_delivery phase is_due
reserve_delivery_iff now a msg dest = ground arith

-- A reservation moves its own message, at its own destination, to the phase of a send in progress.
-- A refusal moves nothing, and neither moves any other message or destination.
pub phase-reserve_delivery :
    (now : Time) (a : AlarmCache) (msg : AlertMsg) (dest d : NotifyDest) (m : String)
    → phase (reserve_delivery now a msg dest).0 d m ≡ (
        if (reserve_delivery now a msg dest).1 && is_key msg dest d m
        then claimed msg.resolved
        else phase a d m)
unfolding phase
phase-reserve_delivery now a msg dest d m = ground (
  arith,
  has-reserve_delivery now a msg dest d m,
  sent_map-reserve_delivery now a msg dest d m,
  reserve_delivery_iff now a msg dest,
  dest_eq→eq dest d,
  str_eq→eq m msg.message,
)

-- The end of a send that was reserved moves its own message to the phase that the service's answer
-- calls for, and no other message or destination.
pub phase-complete_delivery :
    (now : Time) (a : AlarmCache) (msg : AlertMsg) (dest d : NotifyDest) (m : String)
    (accepted : Bool)
    → 0 < now
    → phase a dest msg.message ≡ claimed msg.resolved
    → phase (complete_delivery now a msg dest accepted) d m
      ≡ (if is_key msg dest d m then settled msg.resolved accepted else phase a d m)
unfolding phase
phase-complete_delivery now a msg dest d m accepted clock held = ground (
  arith,
  has-complete_delivery now a msg dest d m accepted,
  sent_map-complete_delivery now a msg dest d m accepted,
  dest_eq→eq dest d,
  str_eq→eq m msg.message,
)

pub phase-is_raised :
    (a : AlarmCache) (d : NotifyDest) (m : String) (r : Bool)
    → phase a d m ≡ claimed r
    → not (is_zero (time_at m (sent_map a d))) ≡ r
unfolding phase
phase-is_raised a d m r h = ground arith

-- The dashboard's operations touch no delivery.
sent_map-all_alarms :
    (a : AlarmCache) (d : NotifyDest) (m : Map (Map Time))
    → sent_map (record a { all_alarms = m }) d ≡ sent_map a d
unfolding sent_map
sent_map-all_alarms a d m = ground arith

module _ (now : Time) (a : AlarmCache) (chain message : String) (resolved : Bool)
    (d : NotifyDest) where
  pub sent_map-record_dashboard_alarm :
      sent_map (record_dashboard_alarm now a chain message resolved) d ≡ sent_map a d
  unfolding record_dashboard_alarm
  sent_map-record_dashboard_alarm = sent_map-all_alarms a d _

  pub phase-record_dashboard_alarm :
      (m : String) → phase (record_dashboard_alarm now a chain message resolved) d m ≡ phase a d m
  unfolding phase record_dashboard_alarm
  phase-record_dashboard_alarm m = rw sent_map-all_alarms

module _ (a : AlarmCache) (chain : String) (d : NotifyDest) where
  pub sent_map-clear_no_blocks : sent_map (clear_no_blocks a chain) d ≡ sent_map a d
  unfolding clear_no_blocks sent_map
  sent_map-clear_no_blocks = ground arith

  pub phase-clear_no_blocks : (m : String) → phase (clear_no_blocks a chain) d m ≡ phase a d m
  unfolding phase clear_no_blocks sent_map
  phase-clear_no_blocks m = ground arith

-- What is being sent is not reserved again.
pub reserved_was_free :
    (now : Time) (a : AlarmCache) (msg : AlertMsg) (dest : NotifyDest)
    → (reserve_delivery now a msg dest).1 ≡ true
    → has msg.message (a.in_flight dest) ≡ false
unfolding reserve_delivery
reserved_was_free now a msg dest h = ground arith

pub refused_unchanged :
    (now : Time) (a : AlarmCache) (msg : AlertMsg) (dest : NotifyDest)
    → (reserve_delivery now a msg dest).1 ≡ false
    → (reserve_delivery now a msg dest).0 ≡ a
unfolding reserve_delivery
refused_unchanged now a msg dest h = ground arith

pub dest_eq_refl : (d : NotifyDest) → dest_eq d d ≡ true
dest_eq_refl d = ground arith
