-- ===== src/Lifecycle/Moves.antt =====
-- Every step of the process keeps the invariant.
use tenderduty_nos.Prelude.{
  ℕ, suc, ◌<◌, true, false, ◌≡◌, refl, ap, subst, List, [], ◌∷◌, ◌++◌, inl, inr, length,
  length-append, arith, String, Bool-cases,
}
use mathlib.Core.List.{append_assoc}
use tenderduty_nos.AlarmCache.{AlertMsg}
use tenderduty_nos.Alerts.{Runtime, begin_alert_ingress, finish_alert_ingress, stop_alert_ingress}
use tenderduty_nos.Lifecycle.Process.{
  Stage, running, quiescing, draining, saving, saved, save_failed, quiesce_timed_out,
  drain_timed_out, System, snapshot, Work, change, raise, refuse, Drain, send, note, finish, take,
  deliver, worker_ends, monitor_ends, quiesced, drained, save, save_fails, Control, begin,
  quiesce_times_out, drain_times_out, Step, work, drain, control, Reach, here, next,
}
use tenderduty_nos.Lifecycle.Invariant.{Inv, At, At-keep, under_way, length-Pick}

length-snoc : (x : AlertMsg) (xs : List AlertMsg) → length (xs ++ (x ∷ [])) ≡ suc (length xs)
length-snoc x xs = omega (arith, length-append xs (x ∷ []))

-- Who still has a monitor or an alert has an open channel.
monitors-open : (s : System) {k : ℕ} → Inv s → s.monitors ≡ suc k → s.closed ≡ false
monitors-open s inv h = elim (Bool-cases s.closed) [
  | inl shut ↦ absurd (ground (arith, (inv.quiet shut).no_monitors, h))
  | inr unclosed ↦ unclosed
]

ingress-open : (s : System) → Inv s → 0 < s.runtime.ingress → s.closed ≡ false
ingress-open s inv h = elim (Bool-cases s.closed) [
  | inl shut ↦ absurd (ground (arith, (inv.quiet shut).no_ingress, h))
  | inr unclosed ↦ unclosed
]

begin_open :
    (r : Runtime)
    → (begin_alert_ingress r).1 ≡ true
    → (r.accepting ≡ true) × ((begin_alert_ingress r).0 ≡ record r { ingress = suc r.ingress })
unfolding begin_alert_ingress
begin_open r h = elim (Bool-cases r.accepting) [
  | inl e ↦ (
    e,
    rw (begin_alert_ingress, e)
        (ap (λ k. record r { ingress = k; accepting = true }) (omega arith)),
  )
  | inr e ↦ absurd (ground (arith, h, e))
]

begin_refused : (r : Runtime) → (begin_alert_ingress r).1 ≡ false → (begin_alert_ingress r).0 ≡ r
unfolding begin_alert_ingress
begin_refused r h = ground (arith, h)

Work-Inv : {s t : System} → Work s t → Inv s → Inv t
Work-Inv (change s config alarms m) inv =
    let unclosed = monitors-open s inv m in
    record {
      counted = inv.counted;
      quiet = inv.quiet;
      queue = inv.queue;
      within = inv.within;
      calm = inv.calm;
      idle = inv.idle;
      stands =
          At-keep s _ refl refl refl refl (λ h. absurd (ground (arith, h, unclosed))) s.stage
            inv.stands;
    }
Work-Inv (raise s x m ok) inv =
    let b = begin_open s.runtime ok in
    rw (b.1) (record {
      counted = omega (arith, inv.counted);
      quiet = λ h. absurd (ground (arith, h, monitors-open s inv m));
      queue = inv.queue;
      within = inv.within;
      calm = inv.calm;
      idle = inv.idle;
      stands = At-keep s _ refl refl refl refl (λ h w. refl) s.stage inv.stands;
    })
Work-Inv (refuse s m refused) inv = rw (begin_refused s.runtime refused) inv

-- A step by which `shutdown` advances changes its stage alone.
restage : (s : System) (g : Stage) → Inv s → At s g → Inv (record s { stage = g })
restage s g inv a = record {
  counted = inv.counted;
  quiet = inv.quiet;
  queue = inv.queue;
  within = inv.within;
  calm = inv.calm;
  idle = inv.idle;
  stands = At-keep s _ refl refl refl refl (λ h w. refl) g a;
}

Control-Inv : {s t : System} → Control s t → Inv s → Inv t
unfolding At stop_alert_ingress
Control-Inv (begin s e) inv = record {
  counted = inv.counted;
  quiet = λ h. absurd (ground (arith, h, subst (At s) e inv.stands));
  queue = inv.queue;
  within = inv.within;
  calm = inv.calm;
  idle = inv.idle;
  stands = (subst (At s) e inv.stands, refl, refl);
}
Control-Inv (quiesce_times_out s e) inv = restage s _ inv (subst (At s) e inv.stands).0
Control-Inv (drain_times_out s e) inv = restage s _ inv (subst (At s) e inv.stands)

At-worker_ends :
    (s : System)
    → s.closed ≡ true
    → s.worker ≡ true
    → (g : Stage) → At s g
    → At (record s { worker = false }) g
unfolding At
At-worker_ends s shut w running a = a
At-worker_ends s shut w quiescing a = a
At-worker_ends s shut w draining a = a
At-worker_ends s shut w saving (a, b) = (a, refl)
At-worker_ends s shut w (saved state) (a, b, c) = absurd (ground (arith, b, w))
At-worker_ends s shut w (save_failed e) (a, b) = (a, refl)
At-worker_ends s shut w quiesce_timed_out a = a
At-worker_ends s shut w drain_timed_out a = a

Inv-quiesced :
    (s : System)
    → s.stage ≡ quiescing
    → s.monitors ≡ 0
    → s.runtime.ingress ≡ 0
    → Inv s
    → Inv (record s { closed = true; stage = draining })
unfolding At
Inv-quiesced s e m i inv =
    let at = subst (At s) e inv.stands in
    record {
      counted = inv.counted;
      quiet = λ h. record { gate_shut = at.2; no_monitors = m; no_ingress = i };
      queue = inv.queue;
      within = inv.within;
      calm = inv.calm;
      idle = λ h. absurd (ground (arith, (inv.idle h).chan_closed, at.0));
      stands = refl;
    }

Inv-drained :
    (s : System) → s.stage ≡ draining → s.worker ≡ false → Inv s → Inv (record s { stage = saving })
unfolding At
Inv-drained s e w inv = restage s _ inv (subst (At s) e inv.stands, w)

Inv-saved : (s : System) → s.stage ≡ saving → Inv s → Inv (record s { stage = saved (snapshot s) })
unfolding At
Inv-saved s e inv =
    let at = subst (At s) e inv.stands in restage s (saved (snapshot s)) inv (at.0, at.1, refl)

Inv-save_failed :
    (s : System) (error : String)
    → s.stage ≡ saving
    → Inv s
    → Inv (record s { stage = save_failed error })
unfolding At
Inv-save_failed s error e inv = restage s (save_failed error) inv (subst (At s) e inv.stands)

pub Drain-Inv : {s t : System} → Drain s t → Inv s → Inv t
unfolding finish_alert_ingress under_way
Drain-Inv (send s x {rest} p room) inv =
    let unclosed = ingress-open s inv (omega (arith, inv.counted, length-Pick p)) in
    record {
      counted = omega (arith, inv.counted, length-Pick p);
      quiet = λ h. absurd (ground (arith, h, unclosed));
      queue = simp (inv.queue, append_assoc);
      within = omega (arith, length-snoc x s.runtime.alert_chan, room);
      calm = rw unclosed inv.calm;
      idle = λ h. absurd (ground (arith, (inv.idle h).chan_closed, unclosed));
      stands = At-keep s _ refl refl refl refl (λ h w. refl) s.stage inv.stands;
    }
Drain-Inv (note s now x {rest} p) inv =
    let unclosed = ingress-open s inv (omega (arith, inv.counted, length-Pick p)) in
    record {
      counted = omega (arith, inv.counted, length-Pick p);
      quiet = λ h. absurd (ground (arith, h, unclosed));
      queue = inv.queue;
      within = inv.within;
      calm = inv.calm;
      idle = inv.idle;
      stands =
          At-keep s _ refl refl refl refl (λ h w. absurd (ground (arith, h, unclosed))) s.stage
            inv.stands;
    }
Drain-Inv (finish s {k} e) inv =
    let unclosed = ingress-open s inv (omega (arith, inv.counted, e)) in
    record {
      counted = omega (arith, inv.counted, e);
      quiet = λ h. absurd (ground (arith, h, unclosed));
      queue = inv.queue;
      within = inv.within;
      calm = inv.calm;
      idle = inv.idle;
      stands = At-keep s _ refl refl refl refl (λ h w. refl) s.stage inv.stands;
    }
Drain-Inv (take s x {rest} w d c) inv = record {
  counted = inv.counted;
  quiet = inv.quiet;
  queue = simp (inv.queue, d, c, under_way);
  within = omega (arith, ap length c, inv.within);
  calm = inv.calm;
  idle = λ h. absurd (ground (arith, h, w));
  stands = At-keep s _ refl refl refl refl (λ h v. refl) s.stage inv.stands;
}
Drain-Inv (deliver s r reserved completed x d) inv = record {
  counted = inv.counted;
  quiet = inv.quiet;
  queue = simp (inv.queue, d, under_way, append_assoc);
  within = inv.within;
  calm = inv.calm;
  idle = λ h. absurd (ground (arith, (inv.idle h).none_delivering, d));
  stands =
      At-keep s _ refl refl refl refl
        (λ h w. absurd (ground (arith, (inv.idle w).none_delivering, d))) s.stage inv.stands;
}
Drain-Inv (worker_ends s w d c shut) inv = record {
  counted = inv.counted;
  quiet = inv.quiet;
  queue = inv.queue;
  within = inv.within;
  calm = inv.calm;
  idle = λ h. record { chan_closed = shut; chan_empty = c; none_delivering = d };
  stands = At-worker_ends s shut w s.stage inv.stands;
}
Drain-Inv (monitor_ends s m c) inv = record {
  counted = inv.counted;
  quiet = λ h. absurd (ground (arith, (inv.quiet h).no_monitors, m));
  queue = inv.queue;
  within = inv.within;
  calm = inv.calm;
  idle = inv.idle;
  stands = At-keep s _ refl refl refl refl (λ h w. refl) s.stage inv.stands;
}
Drain-Inv (quiesced s e m i) inv = Inv-quiesced s e m i inv
Drain-Inv (drained s e w) inv = Inv-drained s e w inv
Drain-Inv (save s e) inv = Inv-saved s e inv
Drain-Inv (save_fails s error e) inv = Inv-save_failed s error e inv

Step-Inv : {s t : System} → Step s t → Inv s → Inv t
Step-Inv (work m) inv = Work-Inv m inv
Step-Inv (drain m) inv = Drain-Inv m inv
Step-Inv (control m) inv = Control-Inv m inv

-- What holds at first holds whatever happens.
pub Reach-Inv : (v s : System) → Inv v → Reach v s → Inv s
Reach-Inv v _ inv here = inv
Reach-Inv v _ inv (next r m) = Step-Inv m (Reach-Inv v _ inv r)
