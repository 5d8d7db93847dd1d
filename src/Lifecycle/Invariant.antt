-- ===== src/Lifecycle/Invariant.antt =====
-- What holds of a running process and of its shutdown at every moment (seer/run.go).
use tenderduty_nos.Prelude.{
  ℕ, suc, ◌+◌, ◌≤◌, Bool, true, false, ◌≡◌, refl, ap, ◌∙◌, Option, none, some, List, [], ◌∷◌, ◌++◌,
  length, arith,
}
use tenderduty_nos.AlarmCache.{AlertMsg, AlarmCache}
use tenderduty_nos.Config.{Config}
use tenderduty_nos.Alerts.{start_alert_ingress}
use tenderduty_nos.Notify.{Sender}
use tenderduty_nos.Lifecycle.Process.{
  Stage, running, quiescing, draining, saving, saved, save_failed, quiesce_timed_out,
  drain_timed_out, System, new_runtime_lifecycle, Pick, first, later, snapshot,
  notification_queue_capacity,
}

unfoldable pub under_way : Option AlertMsg → List AlertMsg
under_way none = []
under_way (some x) = x ∷ []

-- What the stage of `shutdown` says of the rest.
unfoldable pub At : System → Stage → Type 0
At s running = s.closed ≡ false
At s quiescing = (s.closed ≡ false) × (s.cancelled ≡ true) × (s.runtime.accepting ≡ false)
At s draining = s.closed ≡ true
At s saving = (s.closed ≡ true) × (s.worker ≡ false)
At s (saved state) = (s.closed ≡ true) × (s.worker ≡ false) × (state ≡ snapshot s)
At s (save_failed e) = (s.closed ≡ true) × (s.worker ≡ false)
At s quiesce_timed_out = s.closed ≡ false
At s drain_timed_out = s.closed ≡ true

pub record Quiet (accepting : Bool) (monitors ingress : ℕ) : Type 0 where
  pub gate_shut : accepting ≡ false
  pub no_monitors : monitors ≡ 0
  pub no_ingress : ingress ≡ 0

pub record Idle (closed : Bool) (chan : List AlertMsg) (delivering : Option AlertMsg) : Type 0 where
  pub chan_closed : closed ≡ true
  pub chan_empty : chan ≡ []
  pub none_delivering : delivering ≡ none

pub record Inv (s : System) : Type 0 where
  pub counted : s.runtime.ingress ≡ length s.arriving + (length s.noting + s.leaving)
  pub quiet : s.closed ≡ true → Quiet s.runtime.accepting s.monitors s.runtime.ingress
  pub queue : s.sent ≡ s.delivered ++ (under_way s.delivering ++ s.runtime.alert_chan)
  pub within : length s.runtime.alert_chan ≤ notification_queue_capacity
  pub calm : s.panicked ≡ false
  pub idle : s.worker ≡ false → Idle s.closed s.runtime.alert_chan s.delivering
  pub stands : At s s.stage

pub length-Pick :
    {x : AlertMsg} {xs ys : List AlertMsg} → Pick x xs ys → length xs ≡ suc (length ys)
length-Pick first = refl
length-Pick (later p) = ap suc (length-Pick p)

pub Inv-init :
    (config : Config) (alarms : AlarmCache) (sender : Sender) (monitors : ℕ)
    → Inv (new_runtime_lifecycle config alarms sender monitors)
unfolding new_runtime_lifecycle start_alert_ingress At under_way
Inv-init config alarms sender monitors = record {
  counted = refl;
  quiet = λ h. cc;
  queue = refl;
  within = omega arith;
  calm = refl;
  idle = λ h. cc;
  stands = refl;
}

pub At-keep :
    (s t : System)
    → t.closed ≡ s.closed
    → t.cancelled ≡ s.cancelled
    → t.runtime.accepting ≡ s.runtime.accepting
    → t.worker ≡ s.worker
    → (s.closed ≡ true → s.worker ≡ false → snapshot s ≡ snapshot t)
    → (g : Stage) → At s g
    → At t g
unfolding At
At-keep s t p q r w same running a = p ∙ a
At-keep s t p q r w same quiescing (a, b, c) = (p ∙ a, q ∙ b, r ∙ c)
At-keep s t p q r w same draining a = p ∙ a
At-keep s t p q r w same saving (a, b) = (p ∙ a, w ∙ b)
At-keep s t p q r w same (saved state) (a, b, c) = (p ∙ a, w ∙ b, c ∙ same a b)
At-keep s t p q r w same (save_failed e) (a, b) = (p ∙ a, w ∙ b)
At-keep s t p q r w same quiesce_timed_out a = p ∙ a
At-keep s t p q r w same drain_timed_out a = p ∙ a
