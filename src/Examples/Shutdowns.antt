-- ===== src/Examples/Shutdowns.antt =====
-- A process that sends one alert and shuts down.
use tenderduty_nos.Prelude.{
  ℕ, ◌≤◌, ◌≡◌, refl, ◌⊎◌, inl, true, false, none, some, [], ◌∷◌, ◌++◌, length, arith,
}
use tenderduty_nos.AlarmCache.{new_alarm_cache}
use tenderduty_nos.Alerts.{
  finish_alert_ingress, begin_alert_ingress, start_alert_ingress, stop_alert_ingress,
}
use tenderduty_nos.Notify.{Remote, Encoded, Answer, Sender}
use tenderduty_nos.Lifecycle.{
  noted, after_delivery, note, finish, take, deliver, System, quiescing, saving,
  new_runtime_lifecycle, put, snapshot, Drain, Reach, here, next, work, drain, control, raise,
  begin, send, worker_ends, monitor_ends, quiesced, drained, save, first, saved,
  notification_queue_capacity,
}
use tenderduty_nos.Lifecycle.Invariant.{under_way}
use tenderduty_nos.Lifecycle.Safety.{Reach-IsSafe, Reach-saved}
use tenderduty_nos.Lifecycle.Termination.{Run, stop, and_then, measure}
use tenderduty_nos.Lifecycle.Liveness.{IsEnding, IsSaved}
use tenderduty_nos.Lifecycle.Shutdown.{IsDone, shutdown-ends, shutdown-saves}
use tenderduty_nos.Examples.Fixtures.{noon, down_alert, settings}

abbrev remote : Remote
remote = record {
  marshal_slack = λ m. Encoded.bytes "{}";
  marshal_discord = λ m. Encoded.bytes "{}";
  new_request = λ url body. none;
  http_do = λ url body. Answer.status 200;
  new_bot = λ key. none;
  bot_send = λ key channel text. none;
  manage_event = λ attempt event. none;
}

abbrev sender : Sender
sender = record { cache = new_alarm_cache; has_observer = false; observed = []; slept = [] }

abbrev started : System
started = new_runtime_lifecycle settings new_alarm_cache sender 1

abbrev alerting : System
alerting = record started {
  runtime = (begin_alert_ingress started.runtime).0;
  arriving = down_alert ∷ started.arriving;
}

abbrev stopping : System
stopping = record alerting {
  runtime = stop_alert_ingress alerting.runtime;
  cancelled = true;
  stage = quiescing;
}

stopping-Reach : Reach started stopping
unfolding new_runtime_lifecycle begin_alert_ingress start_alert_ingress stop_alert_ingress
stopping-Reach =
    next (next here (work (raise started down_alert refl refl))) (control (begin alerting refl))

abbrev queued : System
queued = put stopping down_alert []

queued-Run : Run 1 stopping queued
unfolding new_runtime_lifecycle begin_alert_ingress start_alert_ingress stop_alert_ingress
queued-Run = and_then (send stopping down_alert first (omega arith)) stop

Reach-IsSafe_example :
    (stopping.panicked ≡ false)
    × (length stopping.runtime.alert_chan ≤ notification_queue_capacity)
    × (stopping.sent
        ≡ stopping.delivered ++ (under_way stopping.delivering ++ stopping.runtime.alert_chan))
Reach-IsSafe_example = Reach-IsSafe settings new_alarm_cache sender 1 stopping stopping-Reach

shutdown-ends_example : (1 ≤ measure stopping) × (IsDone queued ⊎ ((u : System) × Drain queued u))
unfolding IsEnding
shutdown-ends_example =
    shutdown-ends settings new_alarm_cache sender 1 1 stopping queued remote noon noon noon
      stopping-Reach (inl refl) queued-Run

shutdown-saves_example : (n : ℕ) × (t : System) × Run n stopping t × IsSaved t
unfolding IsEnding
shutdown-saves_example =
    shutdown-saves settings new_alarm_cache sender 1 stopping remote noon noon noon stopping-Reach
      (inl refl)

abbrev shown : System
shown = noted queued noon down_alert []

abbrev left : System
left = record shown { runtime = finish_alert_ingress shown.runtime; leaving = 0 }

abbrev taken : System
taken = record left {
  runtime = record left.runtime { alert_chan = [] };
  delivering = some down_alert;
}

abbrev delivered : System
delivered = after_delivery taken remote noon noon down_alert

abbrev ended : System
ended = record delivered { monitors = 0; closed = true; worker = false; stage = saving }

abbrev kept : System
kept = record ended { stage = saved (snapshot ended) }

taken-Reach : Reach started taken
unfolding new_runtime_lifecycle start_alert_ingress stop_alert_ingress begin_alert_ingress
    finish_alert_ingress
taken-Reach =
    next
      (next
        (next (next stopping-Reach (drain (send stopping down_alert first (omega arith))))
          (drain (note queued noon down_alert first)))
        (drain (finish shown refl)))
      (drain (take left down_alert refl refl refl))

ended-Reach : Reach started ended
unfolding new_runtime_lifecycle start_alert_ingress stop_alert_ingress begin_alert_ingress
    finish_alert_ingress
ended-Reach =
    next
      (next
        (next
          (next (next taken-Reach (drain (deliver taken remote noon noon down_alert refl)))
            (drain (monitor_ends delivered refl refl)))
          (drain (quiesced _ refl refl refl)))
        (drain (worker_ends _ refl refl refl refl)))
      (drain (drained _ refl refl))

kept-Reach : Reach started kept
kept-Reach = next ended-Reach (drain (save ended refl))

Reach-saved_example :
    (kept.monitors ≡ 0)
    × (kept.worker ≡ false)
    × (kept.arriving ≡ [])
    × (kept.noting ≡ [])
    × (kept.delivered ≡ kept.sent)
    × (snapshot ended ≡ snapshot kept)
Reach-saved_example =
    Reach-saved settings new_alarm_cache sender 1 kept (snapshot ended) kept-Reach refl
