-- ===== src/Notify/Reservation.antt =====
-- A send of seer/alert.go between its reservation and its deferred completion.
use tenderduty_nos.Prelude.{
  ℕ, zero, suc, String, Bool, false, not, ◌&&◌, ◌≡◌, ◌<◌, refl, ◌∙◌, arith, if◌then◌else◌, Option,
  none, some, Time, str_eq→eq, str_eq_refl, has, inl, inr, Option-cases, ◌+◌,
}
use tenderduty_nos.AlarmCache.{AlertMsg, NotifyDest, reserve_delivery}
use tenderduty_nos.AlarmCache.Phase.{
  phase, is_key, awaited, reserve_delivery_iff, phase-reserve_delivery, phase-complete_delivery,
  has-reserve_delivery, has-complete_delivery, dest_eq→eq, reserved_was_free, refused_unchanged,
}
use tenderduty_nos.Notify.Messages.{PagerDutyEvent}
use tenderduty_nos.Notify.Send.{
  ForeignError, NotificationError, Outcome, Encoded, Remote, Sender, Sent, observe, post_webhook,
  send_telegram, pager_duty_attempts, with_reservation, is_accepted, after_failure,
  classify_pager_duty_error,
}

-- A send does not touch the cache.
abbrev pub Keeps : (Sender → Sent) → Type 0
Keeps send = (s : Sender) → (send s).0.cache ≡ s.cache

pub post_webhook-Keeps :
    (r : Remote) (destination : String) (e : Encoded) (hook : String) (expected : ℕ)
    → Keeps (post_webhook r destination e hook expected)
unfolding post_webhook
post_webhook-Keeps r destination e hook expected s = ground arith

pub send_telegram-Keeps : (r : Remote) (msg : AlertMsg) → Keeps (send_telegram r msg)
unfolding send_telegram
send_telegram-Keeps r msg s = ground arith

observe-cache :
    (s : Sender) (destination : String) (o : Outcome) → (observe s destination o).cache ≡ s.cache
unfolding observe
observe-cache s destination o = ground arith

after_failure-cache :
    (attempt : ℕ) (e : ForeignError) (s : Sender) → (after_failure attempt e s).cache ≡ s.cache
unfolding after_failure
after_failure-cache attempt e s = ground arith

pub pager_duty_attempts-Keeps :
    (r : Remote) (event : PagerDutyEvent) (left attempt : ℕ) (last : Option NotificationError)
    → Keeps (pager_duty_attempts r event left attempt last)
unfolding pager_duty_attempts
pager_duty_attempts-Keeps r event zero attempt last s = refl
pager_duty_attempts-Keeps r event (suc left) attempt last s =
    elim (Option-cases (r.manage_event attempt event)) [
      | inl e ↦
          rw (e, pager_duty_attempts) (ground (arith, observe-cache s "pagerduty" Outcome.accepted))
      | inr (e, q) ↦
          rw (q, pager_duty_attempts)
            (pager_duty_attempts-Keeps r event left (attempt + 1)
                (some (classify_pager_duty_error e)) (after_failure attempt e s)
              ∙ after_failure-cache attempt e s)
    ]

module _ (reserved completed : Time) (msg : AlertMsg) (dest : NotifyDest) (send : Sender → Sent)
    (keeps : Keeps send) (s : Sender) (d : NotifyDest) (m : String) where
  abbrev pub after : Sent
  after = with_reservation reserved completed msg dest send s

  abbrev pub held : Bool
  held = (reserve_delivery reserved s.cache msg dest).1

  pub with_reservation-phase :
      0 < completed
      → phase after.0.cache d m ≡ (
          if held && is_accepted after.1 && is_key msg dest d m
          then awaited (not msg.resolved)
          else phase s.cache d m)
  unfolding with_reservation
  with_reservation-phase clock = ground (
    arith,
    keeps (record s { cache = (reserve_delivery reserved s.cache msg dest).0 }),
    phase-reserve_delivery reserved s.cache msg dest d m,
    phase-reserve_delivery reserved s.cache msg dest dest msg.message,
    reserve_delivery_iff reserved s.cache msg dest,
    phase-complete_delivery completed (reserve_delivery reserved s.cache msg dest).0 msg dest d m (
        is_accepted (send (record s { cache = (reserve_delivery reserved s.cache msg dest).0 })).1),
    str_eq_refl msg.message,
    str_eq→eq m msg.message,
    dest_eq→eq dest d,
  )

  pub with_reservation-in_flight : has m (after.0.cache.in_flight d) ≡ has m (s.cache.in_flight d)
  unfolding with_reservation
  with_reservation-in_flight = ground (
    arith,
    keeps (record s { cache = (reserve_delivery reserved s.cache msg dest).0 }),
    has-reserve_delivery reserved s.cache msg dest d m,
    has-complete_delivery completed (reserve_delivery reserved s.cache msg dest).0 msg dest d m (
        is_accepted (send (record s { cache = (reserve_delivery reserved s.cache msg dest).0 })).1),
    reserved_was_free reserved s.cache msg dest,
    str_eq→eq m msg.message,
    dest_eq→eq dest d,
  )

pub with_reservation_refused :
    (reserved completed : Time) (msg : AlertMsg) (dest : NotifyDest) (send : Sender → Sent)
    (s : Sender)
    → (reserve_delivery reserved s.cache msg dest).1 ≡ false
    → with_reservation reserved completed msg dest send s ≡ (s, none)
unfolding with_reservation
with_reservation_refused reserved completed msg dest send s h =
    ground (arith, refused_unchanged reserved s.cache msg dest h)
