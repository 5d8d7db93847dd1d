-- ===== src/Notify/Delivery.antt =====
-- What one notify call of seer/alert.go does to the cache, whatever the remote services answer.
use tenderduty_nos.Prelude.{
  String, Bool, true, false, not, ◌&&◌, ◌≡◌, ◌<◌, refl, arith, if◌then◌else◌, none, Time, str_eq,
  str_eq_refl, has,
}
use tenderduty_nos.AlarmCache.{AlertMsg, NotifyDest, pd, tg, di, slk, reserve_delivery}
use tenderduty_nos.AlarmCache.Phase.{phase, is_key, awaited, reserve_delivery_iff, dest_eq_refl}
use tenderduty_nos.Notify.Messages.{
  build_pager_duty_event, build_slack_message, build_discord_message,
}
use tenderduty_nos.Notify.Send.{
  Remote, Sender, Sent, post_webhook, send_telegram, pager_duty_attempts, with_reservation,
  is_accepted, notify_slack, notify_discord, notify_telegram, notify_pager_duty,
  pager_duty_max_attempts, example_pager_duty_key,
}
use tenderduty_nos.Notify.Reservation.{
  Keeps, post_webhook-Keeps, send_telegram-Keeps, pager_duty_attempts-Keeps, with_reservation-phase,
  with_reservation-in_flight, with_reservation_refused,
}

-- Is the destination enabled for the message, and, at PagerDuty, its key not the example's?
abbrev pub is_enabled : AlertMsg → NotifyDest → Bool
is_enabled msg pd = msg.pd && not (str_eq msg.key example_pager_duty_key)
is_enabled msg tg = msg.tg
is_enabled msg di = msg.disc
is_enabled msg slk = msg.slk

-- The notify function of each destination.
abbrev pub notify : Remote → Time → Time → AlertMsg → NotifyDest → Sender → Sent
notify r reserved completed msg pd s = notify_pager_duty r reserved completed msg s
notify r reserved completed msg tg s = notify_telegram r reserved completed msg s
notify r reserved completed msg di s = notify_discord r reserved completed msg s
notify r reserved completed msg slk s = notify_slack r reserved completed msg s

-- What a notify function sends once it holds the reservation.
send_to : Remote → AlertMsg → NotifyDest → Sender → Sent
send_to r msg pd = pager_duty_attempts r (build_pager_duty_event msg) pager_duty_max_attempts 1 none
send_to r msg tg = send_telegram r msg
send_to r msg di =
    post_webhook r "discord" (r.marshal_discord (build_discord_message msg)) msg.disc_hook 204
send_to r msg slk =
    post_webhook r "slack" (r.marshal_slack (build_slack_message msg)) msg.slk_hook 200

send_to-Keeps : (r : Remote) (msg : AlertMsg) (dest : NotifyDest) → Keeps (send_to r msg dest)
unfolding send_to
send_to-Keeps r msg pd = pager_duty_attempts-Keeps r _ _ 1 none
send_to-Keeps r msg tg = send_telegram-Keeps r msg
send_to-Keeps r msg di = post_webhook-Keeps r _ _ _ _
send_to-Keeps r msg slk = post_webhook-Keeps r _ _ _ _

notify-with_reservation :
    (r : Remote) (reserved completed : Time) (msg : AlertMsg) (dest : NotifyDest) (s : Sender)
    → notify r reserved completed msg dest s ≡ (
        if is_enabled msg dest
        then with_reservation reserved completed msg dest (send_to r msg dest) s
        else (s, none))
unfolding notify_pager_duty notify_telegram notify_discord notify_slack send_to
notify-with_reservation r reserved completed msg pd s = ground arith
notify-with_reservation r reserved completed msg tg s = refl
notify-with_reservation r reserved completed msg di s = refl
notify-with_reservation r reserved completed msg slk s = refl

module _ (r : Remote) (reserved completed : Time) (msg : AlertMsg) (dest : NotifyDest) (s : Sender)
    (d : NotifyDest) (m : String) where
  -- Whatever the remote service answers, a notify call that is enabled, reserved and accepted moves
  -- its own message to the next resting phase (an alert: raised; a resolution: quiet); every other
  -- call, a failed or a refused one included, leaves the phase of every message as it was.
  pub notify-phase :
      0 < completed
      → phase (notify r reserved completed msg dest s).0.cache d m ≡ (
          if is_enabled msg dest
            && (reserve_delivery reserved s.cache msg dest).1
            && is_accepted (notify r reserved completed msg dest s).1
            && is_key msg dest d m
          then awaited (not msg.resolved)
          else phase s.cache d m)
  notify-phase clock = ground (
    arith,
    notify-with_reservation r reserved completed msg dest s,
    with_reservation-phase reserved completed msg dest (send_to r msg dest)
        (send_to-Keeps r msg dest) s d m clock,
  )

  -- No notify call leaves a reservation behind or drops another's: after it the same messages are in
  -- flight as before, on every path.
  pub notify-in_flight :
      has m ((notify r reserved completed msg dest s).0.cache.in_flight d)
      ≡ has m (s.cache.in_flight d)
  notify-in_flight = ground (
    arith,
    notify-with_reservation r reserved completed msg dest s,
    with_reservation-in_flight reserved completed msg dest (send_to r msg dest)
        (send_to-Keeps r msg dest) s d m,
  )

-- A repeated alert is silent: once an alert was accepted, the same call again sends nothing, reports
-- no error and changes nothing.
pub notify_again :
    (r : Remote) (reserved completed again later : Time) (msg : AlertMsg) (dest : NotifyDest)
    (s : Sender)
    → 0 < completed
    → msg.resolved ≡ false
    → (reserve_delivery reserved s.cache msg dest).1 ≡ true
    → is_accepted (notify r reserved completed msg dest s).1 ≡ true
    → notify r again later msg dest (notify r reserved completed msg dest s).0
      ≡ ((notify r reserved completed msg dest s).0, none)
notify_again r reserved completed again later msg dest s clock alert held acc =
    let s' = (notify r reserved completed msg dest s).0 in
    ground (
      arith,
      notify-with_reservation r again later msg dest s',
      notify-phase r reserved completed msg dest s dest msg.message clock,
      with_reservation_refused again later msg dest (send_to r msg dest) s',
      reserve_delivery_iff again s'.cache msg dest,
      str_eq_refl msg.message,
      dest_eq_refl dest,
    )
