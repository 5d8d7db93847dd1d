-- ===== src/Lifecycle/Safety.antt =====
-- What no order of steps can break in a running process and in its shutdown (seer/run.go).
use tenderduty_nos.Prelude.{
  ℕ, ◌≤◌, false, ◌≡◌, refl, sym, ◌∙◌, List, [], ◌∷◌, ◌++◌, length, arith, subst,
}
use mathlib.Core.List.{append-nil}
use tenderduty_nos.AlarmCache.{AlertMsg, AlarmCache}
use tenderduty_nos.Config.{Config}
use tenderduty_nos.Notify.{Sender}
use tenderduty_nos.SavedState.{SavedState}
use tenderduty_nos.Lifecycle.Process.{
  saved, System, new_runtime_lifecycle, snapshot, notification_queue_capacity, Reach,
}
use tenderduty_nos.Lifecycle.Invariant.{Inv-init, At, under_way}
use tenderduty_nos.Lifecycle.Moves.{Reach-Inv}

-- In every state that a started process reaches, no alert has been sent on the closed channel, the
-- channel holds at most its capacity, and the alerts sent are those delivered, then the one being
-- delivered, then those in the channel, in the order in which they were sent.
pub Reach-IsSafe :
    (config : Config) (alarms : AlarmCache) (sender : Sender) (monitors : ℕ) (s : System)
    → Reach (new_runtime_lifecycle config alarms sender monitors) s
    → (s.panicked ≡ false)
      × (length s.runtime.alert_chan ≤ notification_queue_capacity)
      × (s.sent ≡ s.delivered ++ (under_way s.delivering ++ s.runtime.alert_chan))
Reach-IsSafe config alarms sender monitors s r =
    let inv = Reach-Inv _ s (Inv-init config alarms sender monitors) r in
    (inv.calm, inv.within, inv.queue)

empty-length : (xs : List AlertMsg) → length xs ≡ 0 → xs ≡ []
empty-length [] h = refl
empty-length (x ∷ xs) h = absurd (omega (arith, h))

-- When `shutdown` has saved the state, no monitor and no worker runs, no alert is on its way, every
-- alert sent was delivered, in order, and what was saved is the snapshot of the final state.
pub Reach-saved :
    (config : Config) (alarms : AlarmCache) (sender : Sender) (monitors : ℕ) (s : System)
    (state : SavedState)
    → Reach (new_runtime_lifecycle config alarms sender monitors) s
    → s.stage ≡ saved state
    → (s.monitors ≡ 0)
      × (s.worker ≡ false)
      × (s.arriving ≡ [])
      × (s.noting ≡ [])
      × (s.delivered ≡ s.sent)
      × (state ≡ snapshot s)
unfolding At under_way
Reach-saved config alarms sender monitors s state r e =
    let inv = Reach-Inv _ s (Inv-init config alarms sender monitors) r in
    let at = subst (At s) e inv.stands in
    let quiet = inv.quiet (at.0) in
    let idle = inv.idle (at.1) in
    (
      quiet.no_monitors,
      at.1,
      empty-length s.arriving (omega (arith, inv.counted, quiet.no_ingress)),
      empty-length s.noting (omega (arith, inv.counted, quiet.no_ingress)),
      sym (inv.queue ∙ simp (idle.none_delivering, idle.chan_empty, under_way, append-nil)),
      at.2,
    )
