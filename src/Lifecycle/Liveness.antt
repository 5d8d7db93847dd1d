-- ===== src/Lifecycle/Liveness.antt =====
-- Why `shutdown` is never stuck (seer/run.go): while the state is not saved a draining step is open.
use tenderduty_nos.Prelude.{
  ℕ, zero, suc, ◌<◌, true, false, ◌≡◌, refl, sym, ap, ◌∙◌, none, List, [], ◌∷◌, length, arith, Time,
  subst, Bool-cases, Option-cases, ◌⊎◌, inl, inr,
}
use tenderduty_nos.AlarmCache.{AlertMsg}
use tenderduty_nos.Notify.{Remote}
use tenderduty_nos.Lifecycle.Process.{
  quiescing, draining, saving, saved, System, Pick, first, snapshot, Drain, send, note, finish,
  take, deliver, worker_ends, monitor_ends, quiesced, drained, save, notification_queue_capacity,
}
use tenderduty_nos.Lifecycle.Invariant.{Inv, At}
use tenderduty_nos.Lifecycle.Moves.{Drain-Inv}
use tenderduty_nos.Lifecycle.Termination.{measure, Drain-falls, Run, stop, and_then}

-- `shutdown` is past its first part, and has neither saved nor given up.
unfoldable pub IsEnding : System → Type 0
IsEnding s = (s.stage ≡ quiescing) ⊎ ((s.stage ≡ draining) ⊎ (s.stage ≡ saving))

unfoldable pub IsSaved : System → Type 0
IsSaved s = s.stage ≡ saved (snapshot s)

unfoldable Same : System → Type 0
Same s = (t : System) × Drain s t × (t.stage ≡ s.stage)

unfoldable pub Advance : System → Type 0
Advance s = (t : System) × Drain s t × (IsEnding t ⊎ IsSaved t)

List-cases :
    (xs : List AlertMsg) → (xs ≡ []) ⊎ ((x : AlertMsg) × (rest : List AlertMsg) × (xs ≡ x ∷ rest))
List-cases [] = inl refl
List-cases (x ∷ xs) = inr (x, xs, refl)

Pick-first :
    (xs : List AlertMsg) {x : AlertMsg} {rest : List AlertMsg} → xs ≡ x ∷ rest → Pick x xs rest
Pick-first xs {x} {rest} e = subst (λ ys. Pick x ys rest) (sym e) first

Nat-cases : (n : ℕ) → (n ≡ 0) ⊎ ((k : ℕ) × (n ≡ suc k))
Nat-cases zero = inl refl
Nat-cases (suc k) = inr (k, refl)

has_room : (n : ℕ) → (n < notification_queue_capacity) ⊎ (0 < n)
has_room n = elim (Nat-cases n) [
  | inl e ↦ inl (omega (arith, e))
  | inr (k, e) ↦ inr (omega (arith, e))
]

unfoldable pub DrainsToSaved : System → Type 0
DrainsToSaved s = (n : ℕ) × (t : System) × Run n s t × IsSaved t

module _ (r : Remote) (reserved completed now : Time) where
  advance_worker :
      (s : System)
      → s.worker ≡ true
      → ((s.runtime.alert_chan ≡ []) × (s.delivering ≡ none)) ⊎ Same s
  unfolding Same
  advance_worker s w = elim (Option-cases s.delivering) [
    | inr (x, d) ↦ inr (_, deliver s r reserved completed x d, refl)
    | inl d ↦ elim (List-cases s.runtime.alert_chan) [
      | inl e ↦ inl (e, d)
      | inr (x, rest, e) ↦ inr (_, take s x w d e, refl)
    ]
  ]

  -- An alert that waits for room waits for the worker.
  advance_send :
      (s : System) {x : AlertMsg} {rest : List AlertMsg}
      → s.worker ≡ true
      → s.arriving ≡ x ∷ rest
      → Same s
  unfolding Same
  advance_send s w e = elim (has_room (length s.runtime.alert_chan)) [
    | inl room ↦ (_, send s _ (Pick-first s.arriving e) room, refl)
    | inr full ↦ elim (advance_worker s w) [
      | inl (c, d) ↦ absurd (omega (arith, full, ap length c))
      | inr moved ↦ moved
    ]
  ]

  advance_alerts : (s : System) → Inv s → s.worker ≡ true → (s.runtime.ingress ≡ 0) ⊎ Same s
  unfolding Same
  advance_alerts s inv w = elim (List-cases s.arriving) [
    | inr (x, rest, e) ↦ inr (advance_send s w e)
    | inl a ↦ elim (List-cases s.noting) [
      | inr (x, rest, e) ↦ inr (_, note s now x (Pick-first s.noting e), refl)
      | inl b ↦ elim (Nat-cases s.leaving) [
        | inr (k, e) ↦ inr (_, finish s e, refl)
        | inl c ↦ inl (omega (arith, inv.counted, ap length a, ap length b, c))
      ]
    ]
  ]

  worker_of_open : (s : System) → Inv s → s.closed ≡ false → s.worker ≡ true
  worker_of_open s inv c = elim (Bool-cases s.worker) [
    | inl w ↦ w
    | inr w ↦ absurd (ground (arith, (inv.idle w).chan_closed, c))
  ]

  Same-Advance : (s : System) → IsEnding s → Same s → Advance s
  unfolding Same Advance IsEnding
  Same-Advance s (inl e) (t, d, same) = (t, d, inl (inl (same ∙ e)))
  Same-Advance s (inr (inl e)) (t, d, same) = (t, d, inl (inr (inl (same ∙ e))))
  Same-Advance s (inr (inr e)) (t, d, same) = (t, d, inl (inr (inr (same ∙ e))))

  quiescing-Advance : (s : System) → Inv s → s.stage ≡ quiescing → Advance s
  unfolding Advance IsEnding At
  quiescing-Advance s inv e =
      let at = subst (At s) e inv.stands in
      elim (advance_alerts s inv (worker_of_open s inv (at.0))) [
        | inr moved ↦ Same-Advance s (inl e) moved
        | inl i ↦ elim (Nat-cases s.monitors) [
          | inl m ↦ (_, quiesced s e m i, inl (inr (inl refl)))
          | inr (k, m) ↦ (_, monitor_ends s m (at.1), inl (inl e))
        ]
      ]

  draining-Advance : (s : System) → Inv s → s.stage ≡ draining → Advance s
  unfolding Advance IsEnding At
  draining-Advance s inv e = elim (Bool-cases s.worker) [
    | inr w ↦ (_, drained s e w, inl (inr (inr refl)))
    | inl w ↦ elim (advance_worker s w) [
      | inr moved ↦ Same-Advance s (inr (inl e)) moved
      | inl (c, d) ↦ (_, worker_ends s w d c (subst (At s) e inv.stands), inl (inr (inl e)))
    ]
  ]

  pub IsEnding-Advance : (s : System) → Inv s → IsEnding s → Advance s
  unfolding Advance IsEnding IsSaved
  IsEnding-Advance s inv (inl e) = quiescing-Advance s inv e
  IsEnding-Advance s inv (inr (inl e)) = draining-Advance s inv e
  IsEnding-Advance s inv (inr (inr e)) = (_, save s e, inr refl)

  pub IsEnding-DrainsToSaved :
      (m : ℕ) (s : System) → Inv s → IsEnding s → measure s < m → DrainsToSaved s
  unfolding Advance DrainsToSaved
  IsEnding-DrainsToSaved zero s inv e small = absurd (omega (arith, small))
  IsEnding-DrainsToSaved (suc m) s inv e small =
      let (t, d, what) = IsEnding-Advance s inv e in
      elim what [
        | inr done ↦ (1, t, and_then d stop, done)
        | inl ending ↦
            let (n, u, r, done) =
              IsEnding-DrainsToSaved m t (Drain-Inv d inv) ending
                (omega (arith, small, Drain-falls d)) in
            (suc n, u, and_then d r, done)
      ]
