-- ===== src/Lifecycle/Termination.antt =====
-- Why `shutdown` comes to an end (seer/run.go): every step that drains the process lowers a measure,
-- and while the state is not saved there is such a step.
use tenderduty_nos.Prelude.{
  ℕ, suc, ◌+◌, ◌*◌, ◌≤◌, ◌<◌, Bool, true, false, [], ◌∷◌, length, arith, length-append,
}
use tenderduty_nos.Alerts.{finish_alert_ingress}
use tenderduty_nos.Lifecycle.Process.{
  Stage, running, quiescing, draining, saving, saved, save_failed, quiesce_timed_out,
  drain_timed_out, System, Drain, send, note, finish, take, deliver, worker_ends, monitor_ends,
  quiesced, drained, save, save_fails,
}
use tenderduty_nos.Lifecycle.Invariant.{under_way, length-Pick}

unfoldable pub rank : Stage → ℕ
rank quiescing = 3
rank draining = 2
rank saving = 1
rank running = 0
rank (saved state) = 0
rank (save_failed e) = 0
rank quiesce_timed_out = 0
rank drain_timed_out = 0

unfoldable pub one_if : Bool → ℕ
one_if true = 1
one_if false = 0

-- An alert on its way has up to five steps to go: the send, the note, the return of its place, the
-- worker's take and the delivery.
unfoldable pub measure : System → ℕ
unfolding rank one_if under_way
measure s =
    5 * length s.arriving
    + (2 * length s.noting
        + (s.leaving
            + (2 * length s.runtime.alert_chan
                + (length (under_way s.delivering)
                    + (s.monitors + (one_if s.worker + rank s.stage))))))

pub Drain-falls : {s t : System} → Drain s t → measure t < measure s
unfolding measure rank one_if under_way finish_alert_ingress
Drain-falls (send s x p room) =
    omega (arith, length-Pick p, length-append s.runtime.alert_chan (x ∷ []))
Drain-falls (note s now x p) = omega (arith, length-Pick p)
Drain-falls (finish s e) = omega (arith, e)
Drain-falls (take s x w d c) = rw (c, d) (omega arith)
Drain-falls (deliver s r reserved completed x d) = rw d (omega arith)
Drain-falls (worker_ends s w d c shut) = rw w (omega arith)
Drain-falls (monitor_ends s e c) = omega (arith, e)
Drain-falls (quiesced s e m i) = rw e (omega arith)
Drain-falls (drained s e w) = rw e (omega arith)
Drain-falls (save s e) = rw e (omega arith)
Drain-falls (save_fails s error e) = rw e (omega arith)

-- So many draining steps, one after the other.
pub data Run : ℕ → System → System → Type 0 where
  stop : {s : System} → Run 0 s s
  and_then : {n : ℕ} {s t u : System} → Drain s t → Run n t u → Run (suc n) s u

-- A run of draining steps, in whatever order, is no longer than the measure that it uses up.
pub Run-bounded : {n : ℕ} {s t : System} → Run n s t → n + measure t ≤ measure s
Run-bounded stop = omega arith
Run-bounded (and_then d r) = omega (arith, Drain-falls d, Run-bounded r)
