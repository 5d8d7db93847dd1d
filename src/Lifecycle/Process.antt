-- ===== src/Lifecycle/Process.antt =====
-- The goroutines of a running process, and runtimeLifecycle.shutdown (seer/run.go), as steps that
-- interleave in any order.
--
-- An alert on its way through Config.alert is in `arriving` between the open gate and the channel, in
-- `noting` until the dashboard has it, and in `leaving` until its place in the wait group is given
-- back. `sent` and `delivered` record what went through the channel, oldest first. A delivery is one
-- step; AlarmCache.Trace interleaves the four sends. What `shutdown` does to the websockets is in
-- Socket.Session.
use tenderduty_nos.Prelude.{
  ℕ, suc, ◌<◌, Bool, true, false, if◌then◌else◌, ◌≡◌, Option, none, some, List, [], ◌∷◌, ◌++◌,
  length, String, Time,
}
use tenderduty_nos.AlarmCache.{AlertMsg, AlarmCache, record_dashboard_alarm}
use tenderduty_nos.Config.{Config}
use tenderduty_nos.Alerts.{
  Runtime, begin_alert_ingress, finish_alert_ingress, start_alert_ingress, stop_alert_ingress,
}
use tenderduty_nos.Notify.{Remote, Sender, deliver_alert}
use tenderduty_nos.SavedState.{SavedState, snapshot_saved_state}

abbrev pub notification_queue_capacity : ℕ
notification_queue_capacity = 64

-- How far `shutdown` is, with its error at the end.
pub data Stage : Type 0 where
  running quiescing draining saving : Stage
  saved : SavedState → Stage
  save_failed : String → Stage
  quiesce_timed_out drain_timed_out : Stage

pub record System : Type 0 where
  pub config : Config
  pub runtime : Runtime
  pub sender : Sender
  pub cancelled : Bool
  pub monitors : ℕ
  pub arriving : List AlertMsg
  pub noting : List AlertMsg
  pub leaving : ℕ
  pub delivering : Option AlertMsg
  pub worker : Bool
  pub closed : Bool
  pub panicked : Bool
  pub stage : Stage
  pub sent : List AlertMsg
  pub delivered : List AlertMsg

-- newRuntimeLifecycle, after which the worker and the monitors are started.
unfoldable pub new_runtime_lifecycle : Config → AlarmCache → Sender → ℕ → System
unfolding start_alert_ingress
new_runtime_lifecycle config alarms sender monitors = record {
  config = config;
  runtime =
      start_alert_ingress
        (record { alarms = alarms; accepting = false; ingress = 0; alert_chan = [] });
  sender = sender;
  cancelled = false;
  monitors = monitors;
  arriving = [];
  noting = [];
  leaving = 0;
  delivering = none;
  worker = true;
  closed = false;
  panicked = false;
  stage = running;
  sent = [];
  delivered = [];
}

-- Taking one of several alerts.
pub data Pick (x : AlertMsg) : List AlertMsg → List AlertMsg → Type 0 where
  first : {xs : List AlertMsg} → Pick x (x ∷ xs) xs
  later : {y : AlertMsg} {xs ys : List AlertMsg} → Pick x xs ys → Pick x (y ∷ xs) (y ∷ ys)

-- A send on a closed channel panics.
abbrev pub put : System → AlertMsg → List AlertMsg → System
put s x rest = record s {
  runtime = record s.runtime { alert_chan = s.runtime.alert_chan ++ (x ∷ []) };
  arriving = rest;
  noting = x ∷ s.noting;
  panicked = if s.closed then true else s.panicked;
  sent = s.sent ++ (x ∷ []);
}

abbrev pub noted : System → Time → AlertMsg → List AlertMsg → System
noted s now x rest = record s {
  runtime = record s.runtime {
    alarms = record_dashboard_alarm now s.runtime.alarms x.chain x.message x.resolved;
  };
  noting = rest;
  leaving = suc s.leaving;
}

abbrev pub after_delivery : System → Remote → Time → Time → AlertMsg → System
after_delivery s r reserved completed x =
    let sender =
      deliver_alert r reserved completed x (record s.sender { cache = s.runtime.alarms }) in
    record s {
      runtime = record s.runtime { alarms = sender.cache };
      sender = sender;
      delivering = none;
      delivered = s.delivered ++ (x ∷ []);
    }

abbrev pub snapshot : System → SavedState
snapshot s = snapshot_saved_state (s.config, s.runtime.alarms)

-- What the monitors do: change the chains and the alarms, and open an alert while the gate is open.
pub data Work : System → System → Type 0 where
  change :
      (s : System) (config : Config) (alarms : AlarmCache) {k : ℕ}
      → s.monitors ≡ suc k
      → Work s (record s { config = config; runtime = record s.runtime { alarms = alarms } })
  raise :
      (s : System) (x : AlertMsg) {k : ℕ}
      → s.monitors ≡ suc k
      → (begin_alert_ingress s.runtime).1 ≡ true
      → Work s (record s { runtime = (begin_alert_ingress s.runtime).0; arriving = x ∷ s.arriving })
  refuse :
      (s : System) {k : ℕ}
      → s.monitors ≡ suc k
      → (begin_alert_ingress s.runtime).1 ≡ false
      → Work s (record s { runtime = (begin_alert_ingress s.runtime).0 })

-- What is under way to an end: alerts, the notification worker, monitors that stop, and `shutdown`
-- after its first part.
pub data Drain : System → System → Type 0 where
  send :
      (s : System) (x : AlertMsg) {rest : List AlertMsg}
      → Pick x s.arriving rest
      → length s.runtime.alert_chan < notification_queue_capacity
      → Drain s (put s x rest)
  note :
      (s : System) (now : Time) (x : AlertMsg) {rest : List AlertMsg}
      → Pick x s.noting rest
      → Drain s (noted s now x rest)
  finish :
      (s : System) {k : ℕ}
      → s.leaving ≡ suc k
      → Drain s (record s { runtime = finish_alert_ingress s.runtime; leaving = k })
  take :
      (s : System) (x : AlertMsg) {rest : List AlertMsg}
      → s.worker ≡ true
      → s.delivering ≡ none
      → s.runtime.alert_chan ≡ x ∷ rest
      → Drain s (record s { runtime = record s.runtime { alert_chan = rest }; delivering = some x })
  deliver :
      (s : System) (r : Remote) (reserved completed : Time) (x : AlertMsg)
      → s.delivering ≡ some x
      → Drain s (after_delivery s r reserved completed x)
  worker_ends :
      (s : System)
      → s.worker ≡ true
      → s.delivering ≡ none
      → s.runtime.alert_chan ≡ []
      → s.closed ≡ true
      → Drain s (record s { worker = false })
  monitor_ends :
      (s : System) {k : ℕ}
      → s.monitors ≡ suc k
      → s.cancelled ≡ true
      → Drain s (record s { monitors = k })
  quiesced :
      (s : System)
      → s.stage ≡ quiescing
      → s.monitors ≡ 0
      → s.runtime.ingress ≡ 0
      → Drain s (record s { closed = true; stage = draining })
  drained :
      (s : System) → s.stage ≡ draining → s.worker ≡ false → Drain s (record s { stage = saving })
  save : (s : System) → s.stage ≡ saving → Drain s (record s { stage = saved (snapshot s) })
  save_fails :
      (s : System) (e : String) → s.stage ≡ saving → Drain s (record s { stage = save_failed e })

-- The first part of `shutdown`, which `sync.Once` runs once, and its time limits.
pub data Control : System → System → Type 0 where
  begin :
      (s : System)
      → s.stage ≡ running
      → Control s
          (record s { runtime = stop_alert_ingress s.runtime; cancelled = true; stage = quiescing })
  quiesce_times_out :
      (s : System) → s.stage ≡ quiescing → Control s (record s { stage = quiesce_timed_out })
  drain_times_out :
      (s : System) → s.stage ≡ draining → Control s (record s { stage = drain_timed_out })

pub data Step (s t : System) : Type 0 where
  work : Work s t → Step s t
  drain : Drain s t → Step s t
  control : Control s t → Step s t

pub data Reach (v : System) : System → Type 0 where
  here : Reach v v
  next : {s t : System} → Reach v s → Step s t → Reach v t
