-- ===== src/Examples/Deliveries.antt =====
-- The delivery state and the notification sender at work.
use tenderduty_nos.Prelude.{
  ◌==◌, ◌+◌, ltb, ◌≡◌, ◌↔◌, refl, String, true, false, ◌&&◌, if◌then◌else◌, Option, none, some, [],
  ◌∷◌, arith, has, str_eq, lookup, time_at, inner,
}
use tenderduty_nos.AlarmCache.{
  AlarmCache, new_alarm_cache, sent_map, pd, slk, reserve_delivery, complete_delivery,
  record_dashboard_alarm,
}
use tenderduty_nos.AlarmCache.Phase.{
  phase, quiet, raising, raised, is_key, phase-reserve_delivery, phase-complete_delivery,
}
use tenderduty_nos.AlarmCache.Trace.{
  Delivery, World, Reach, finished, here, next, reserve, finish, first, start, Alternates,
}
use tenderduty_nos.AlarmCache.Trace.Alternation.{Reach-Alternates}
use tenderduty_nos.AlarmCache.Trace.Spacing.{last_page, reserve_delivery-last_page}
use tenderduty_nos.Notify.{
  Remote, Sender, Encoded, Answer, ForeignError, notify_pager_duty, with_reservation, after_failure,
  pager_duty_attempts, is_accepted,
}
use tenderduty_nos.Notify.Delivery.{notify, notify-phase, notify-in_flight, is_enabled}
use tenderduty_nos.Examples.Fixtures.{noon, down_alert}

abbrev sent : AlarmCache
sent = (reserve_delivery noon new_alarm_cache down_alert pd).0

sent_holds : (reserve_delivery noon new_alarm_cache down_alert pd).1 ≡ true
unfolding reserve_delivery new_alarm_cache has lookup time_at inner sent_map
sent_holds = refl

phase-reserve_delivery_example : phase sent pd "node down" ≡ (
    if (reserve_delivery noon new_alarm_cache down_alert pd).1
      && is_key down_alert pd pd "node down"
    then raising
    else phase new_alarm_cache pd "node down")
phase-reserve_delivery_example =
    phase-reserve_delivery noon new_alarm_cache down_alert pd pd "node down"

sent-raising : phase sent pd "node down" ≡ raising
unfolding str_eq
sent-raising = rw sent_holds at phase-reserve_delivery_example

phase-complete_delivery_example :
    phase (complete_delivery noon sent down_alert pd true) pd "node down"
    ≡ (if is_key down_alert pd pd "node down" then raised else phase sent pd "node down")
phase-complete_delivery_example =
    phase-complete_delivery noon sent down_alert pd pd "node down" true (omega arith) sent-raising

-- One alert, reserved and then accepted.
abbrev alert_delivery : Delivery
alert_delivery = record { msg = down_alert; dest = pd }

abbrev after_alert : World
after_alert =
    finished noon (record (start new_alarm_cache) { cache = sent; pending = alert_delivery ∷ [] })
      alert_delivery true []

abbrev one_alert : Reach (start new_alarm_cache) after_alert
one_alert =
    next (next here (reserve (start new_alarm_cache) noon alert_delivery sent_holds))
      (finish _ noon alert_delivery true (omega arith) first)

Reach-Alternates_example : Alternates new_alarm_cache (alert_delivery ∷ [])
Reach-Alternates_example = Reach-Alternates new_alarm_cache one_alert

reserve_delivery-last_page_example :
    ((reserve_delivery noon after_alert.cache down_alert pd).1 ≡ true) ↔ (
      (phase after_alert.cache pd "node down" ≡ quiet)
      × (ltb noon (last_page one_alert down_alert.chain "node down" + 300000000000) ≡ false))
reserve_delivery-last_page_example = reserve_delivery-last_page one_alert noon down_alert pd

one_alert-last_page : last_page one_alert down_alert.chain "node down" ≡ noon
unfolding last_page str_eq
one_alert-last_page = refl

abbrev stalled_text : String
stalled_text = "stalled: have not seen a new block on osmosis-1 in 10 minutes"

abbrev stalled_cache : AlarmCache
stalled_cache = record_dashboard_alarm noon new_alarm_cache "osmosis" stalled_text false

abbrev no_error : Option ForeignError
no_error = none

abbrev refused : ForeignError
refused = record { text = "refused"; is_api = false }

-- A remote whose PagerDuty fails once.
abbrev pub remote : Remote
remote = record {
  marshal_slack = λ m. Encoded.bytes "slack";
  marshal_discord = λ m. Encoded.bytes "discord";
  new_request = λ hook body. none;
  http_do = λ hook body. Answer.status 200;
  new_bot = λ key. none;
  bot_send = λ key channel text. none;
  manage_event = λ attempt event. if attempt == 1 then some refused else none;
}

abbrev idle : Sender
idle = record { cache = new_alarm_cache; has_observer = true; observed = []; slept = [] }

notify-phase_example :
    phase (notify remote noon noon down_alert slk idle).0.cache slk "node down" ≡ (
      if is_enabled down_alert slk
        && (reserve_delivery noon new_alarm_cache down_alert slk).1
        && is_accepted (notify remote noon noon down_alert slk idle).1
        && is_key down_alert slk slk "node down"
      then raised
      else phase new_alarm_cache slk "node down")
notify-phase_example =
    notify-phase remote noon noon down_alert slk idle slk "node down" (omega arith)

notify-in_flight_example :
    has "node down" ((notify remote noon noon down_alert pd idle).0.cache.in_flight pd)
    ≡ has "node down" (new_alarm_cache.in_flight pd)
notify-in_flight_example = notify-in_flight remote noon noon down_alert pd idle pd "node down"

-- The second attempt is accepted.
first_accepted : is_accepted (notify remote noon noon down_alert pd idle).1 ≡ true
unfolding notify_pager_duty with_reservation pager_duty_attempts after_failure reserve_delivery
    new_alarm_cache has lookup time_at inner sent_map str_eq
first_accepted = refl
