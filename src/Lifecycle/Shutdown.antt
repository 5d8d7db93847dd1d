-- ===== src/Lifecycle/Shutdown.antt =====
-- `shutdown` ends (seer/run.go): no order of draining steps goes on for ever or gets stuck, and one
-- of them saves the state.
use tenderduty_nos.Prelude.{
  ℕ, suc, ◌≤◌, Bool, true, false, ◌≡◌, refl, arith, String, Time, ◌⊎◌, inl, inr,
}
use tenderduty_nos.AlarmCache.{AlarmCache}
use tenderduty_nos.Config.{Config}
use tenderduty_nos.Notify.{Remote, Sender}
use tenderduty_nos.SavedState.{SavedState}
use tenderduty_nos.Lifecycle.Process.{
  Stage, running, quiescing, draining, saving, saved, save_failed, quiesce_timed_out,
  drain_timed_out, System, new_runtime_lifecycle, Drain, send, note, finish, Reach, take, deliver,
  worker_ends, monitor_ends, quiesced, drained, save, save_fails,
}
use tenderduty_nos.Lifecycle.Invariant.{Inv, Inv-init}
use tenderduty_nos.Lifecycle.Moves.{Drain-Inv, Reach-Inv}
use tenderduty_nos.Lifecycle.Termination.{measure, Run, stop, and_then, Run-bounded}
use tenderduty_nos.Lifecycle.Liveness.{
  IsEnding, IsSaved, Advance, IsEnding-Advance, IsEnding-DrainsToSaved, DrainsToSaved,
}

unfoldable pub IsDone : System → Type 0
IsDone s =
    ((state : SavedState) × (s.stage ≡ saved state)) ⊎ ((e : String) × (s.stage ≡ save_failed e))

-- The stages that draining steps lead through.
unfoldable closing : Stage → Bool
closing running = false
closing quiescing = true
closing draining = true
closing saving = true
closing (saved state) = true
closing (save_failed e) = true
closing quiesce_timed_out = false
closing drain_timed_out = false

Drain-closing : {s t : System} → Drain s t → closing s.stage ≡ true → closing t.stage ≡ true
unfolding closing
Drain-closing (send s x p room) c = c
Drain-closing (note s now x p) c = c
Drain-closing (finish s e) c = c
Drain-closing (take s x w d e) c = c
Drain-closing (deliver s r reserved completed x d) c = c
Drain-closing (worker_ends s w d e shut) c = c
Drain-closing (monitor_ends s m e) c = c
Drain-closing (quiesced s e m i) c = refl
Drain-closing (drained s e w) c = refl
Drain-closing (save s e) c = refl
Drain-closing (save_fails s error e) c = refl

IsEnding-closing : (s : System) → IsEnding s → closing s.stage ≡ true
unfolding IsEnding closing
IsEnding-closing s (inl e) = rw e refl
IsEnding-closing s (inr (inl e)) = rw e refl
IsEnding-closing s (inr (inr e)) = rw e refl

closing-cases : (s : System) → (g : Stage) → s.stage ≡ g → closing g ≡ true → IsEnding s ⊎ IsDone s
unfolding IsEnding IsDone closing
closing-cases s running e c = absurd (ground (arith, c))
closing-cases s quiescing e c = inl (inl e)
closing-cases s draining e c = inl (inr (inl e))
closing-cases s saving e c = inl (inr (inr e))
closing-cases s (saved state) e c = inr (inl (state, e))
closing-cases s (save_failed error) e c = inr (inr (error, e))
closing-cases s quiesce_timed_out e c = absurd (ground (arith, c))
closing-cases s drain_timed_out e c = absurd (ground (arith, c))

Run-closing : {n : ℕ} {s t : System} → Run n s t → closing s.stage ≡ true → closing t.stage ≡ true
Run-closing stop c = c
Run-closing (and_then d r) c = Run-closing r (Drain-closing d c)

Run-Inv : {n : ℕ} {s t : System} → Run n s t → Inv s → Inv t
Run-Inv stop inv = inv
Run-Inv (and_then d r) inv = Run-Inv r (Drain-Inv d inv)

-- From a state in which `shutdown` has begun and has not given up, every run of draining steps, in any
-- order, is at most as long as the measure of that state, and where it stands `shutdown` has saved the
-- state or failed to, or a further draining step is open.
pub shutdown-ends :
    (config : Config) (alarms : AlarmCache) (sender : Sender) (monitors n : ℕ) (s t : System)
    (r : Remote) (reserved completed now : Time)
    → Reach (new_runtime_lifecycle config alarms sender monitors) s
    → IsEnding s
    → Run n s t
    → (n ≤ measure s) × (IsDone t ⊎ ((u : System) × Drain t u))
unfolding Advance
shutdown-ends config alarms sender monitors n s t r reserved completed now reach e run =
    let inv = Run-Inv run (Reach-Inv _ s (Inv-init config alarms sender monitors) reach) in
    (
      omega (arith, Run-bounded run),
      elim (closing-cases t t.stage refl (Run-closing run (IsEnding-closing s e))) [
        | inr done ↦ inl done
        | inl ending ↦
            let (u, d, rest) = IsEnding-Advance r reserved completed now t inv ending in inr (u, d)
      ],
    )

-- From such a state some run of draining steps saves the state, and what it saves is the snapshot of
-- the state in which it ends.
pub shutdown-saves :
    (config : Config) (alarms : AlarmCache) (sender : Sender) (monitors : ℕ) (s : System)
    (r : Remote) (reserved completed now : Time)
    → Reach (new_runtime_lifecycle config alarms sender monitors) s
    → IsEnding s
    → (n : ℕ) × (t : System) × Run n s t × IsSaved t
unfolding DrainsToSaved
shutdown-saves config alarms sender monitors s r reserved completed now reach e =
    IsEnding-DrainsToSaved r reserved completed now (suc (measure s)) s
      (Reach-Inv _ s (Inv-init config alarms sender monitors) reach) e (omega arith)
