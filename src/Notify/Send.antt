-- ===== src/Notify/Send.antt =====
-- notificationSender of seer/alert.go. The HTTP client, the JSON encoder, the Telegram bot and the
-- PagerDuty client are the parameters `Remote`: what they answer to one call. An error of theirs is
-- its text and whether `errors.As` finds the API's own error type in it. The request contexts only
-- bound the time of a call, whose answer is then an error.
use tenderduty_nos.Prelude.{
  ℕ, zero, suc, ◌+◌, String, Bool, true, false, if◌then◌else◌, List, [], ◌∷◌, ◌++◌, Option, none,
  some, ltb, ◌==◌, Time, str_eq,
}
use tenderduty_nos.AlarmCache.{
  AlertMsg, NotifyDest, pd, tg, di, slk, AlarmCache, reserve_delivery, complete_delivery,
}
use tenderduty_nos.Notify.Messages.{
  SlackMessage, DiscordMessage, PagerDutyEvent, build_slack_message, build_discord_message,
  build_telegram_text, build_pager_duty_event,
}

pub record ForeignError : Type 0 where
  pub text : String
  pub is_api : Bool

pub data NotificationError : Type 0 where
  transport_error : String → ForeignError → NotificationError
  api_error : String → ForeignError → NotificationError
  http_error : String → ℕ → NotificationError

pub data Outcome : Type 0 where
  accepted rejected transport : Outcome

pub data Answer : Type 0 where
  failed : ForeignError → Answer
  status : ℕ → Answer

pub data Encoded : Type 0 where
  failed : ForeignError → Encoded
  bytes : String → Encoded

-- What the code outside this repository answers. `attempt` counts from 1.
pub record Remote : Type 0 where
  pub marshal_slack : SlackMessage → Encoded
  pub marshal_discord : DiscordMessage → Encoded
  pub new_request : String → String → Option ForeignError
  pub http_do : String → String → Answer
  pub new_bot : String → Option ForeignError
  pub bot_send : String → String → String → Option ForeignError
  pub manage_event : ℕ → PagerDutyEvent → Option ForeignError

-- `observe` is a callback that may be nil: `observed` lists its calls, oldest first, and `slept` the
-- calls of `sleep`.
pub record Sender : Type 0 where
  pub cache : AlarmCache
  pub has_observer : Bool
  pub observed : List (String × Outcome)
  pub slept : List ℕ

abbrev pub pager_duty_max_attempts : ℕ
pager_duty_max_attempts = 2

abbrev pub pager_duty_retry_delay : ℕ
pager_duty_retry_delay = 250000000

abbrev pub example_pager_duty_key : String
example_pager_duty_key = "aaaaaaaaaaaabbbbbbbbbbbbbcccccccccccc"

-- The outcome that an error is counted under.
abbrev pub outcome_of : NotificationError → Outcome
outcome_of (transport_error destination cause) = transport
outcome_of (api_error destination cause) = rejected
outcome_of (http_error destination code) = rejected

unfoldable pub observe : Sender → String → Outcome → Sender
observe s destination outcome =
    if s.has_observer
    then record s { observed = s.observed ++ ((destination, outcome) ∷ []) }
    else s

-- A send that holds its reservation: the sender after it, and the error, `none` when accepted.
abbrev pub Sent : Type 0
Sent = Sender × Option NotificationError

unfoldable pub observe_error : Sender → String → NotificationError → Sent
unfolding observe
observe_error s destination err = (observe s destination (outcome_of err), some err)

unfoldable pub observe_accepted : Sender → String → Sent
unfolding observe
observe_accepted s destination = (observe s destination accepted, none)

-- The two HTTP services: encode, build the request, post it, and compare the status.
unfoldable pub post_webhook : Remote → String → Encoded → String → ℕ → Sender → Sent
unfolding observe_error observe_accepted
post_webhook r destination data' hook expected s = elim data' [
  | failed e ↦ observe_error s destination (transport_error destination e)
  | bytes body ↦ elim (r.new_request hook body) [
    | some e ↦ observe_error s destination (transport_error destination e)
    | none ↦ elim (r.http_do hook body) [
      | failed e ↦ observe_error s destination (transport_error destination e)
      | status code ↦
          if code == expected
          then observe_accepted s destination
          else observe_error s destination (http_error destination code)
    ]
  ]
]

unfoldable pub classify_telegram_error : ForeignError → NotificationError
classify_telegram_error e =
    if e.is_api then api_error "telegram" e else transport_error "telegram" e

unfoldable pub send_telegram : Remote → AlertMsg → Sender → Sent
unfolding observe_error observe_accepted
send_telegram r msg s = elim (r.new_bot msg.tg_key) [
  | some e ↦ observe_error s "telegram" (classify_telegram_error e)
  | none ↦ elim (r.bot_send msg.tg_key msg.tg_channel (build_telegram_text msg)) [
    | some e ↦ observe_error s "telegram" (classify_telegram_error e)
    | none ↦ observe_accepted s "telegram"
  ]
]

unfoldable pub classify_pager_duty_error : ForeignError → NotificationError
classify_pager_duty_error e =
    if e.is_api then api_error "pagerduty" e else transport_error "pagerduty" e

sleep_between : ℕ → Sender → Sender
sleep_between attempt s =
    if ltb attempt pager_duty_max_attempts
    then record s { slept = s.slept ++ (pager_duty_retry_delay ∷ []) }
    else s

-- The sender after a failed attempt.
unfoldable pub after_failure : ℕ → ForeignError → Sender → Sender
unfolding observe_error sleep_between
after_failure attempt e s =
    sleep_between attempt (observe_error s "pagerduty" (classify_pager_duty_error e)).0

-- The loop over the attempts: how many are left, the number of the next, and the last error.
unfoldable pub pager_duty_attempts :
    Remote → PagerDutyEvent → ℕ → ℕ → Option NotificationError → Sender → Sent
unfolding observe_accepted
pager_duty_attempts r event zero attempt last s = (s, last)
pager_duty_attempts r event (suc left) attempt last s = elim (r.manage_event attempt event) [
  | none ↦ observe_accepted s "pagerduty"
  | some e ↦
      pager_duty_attempts r event left (attempt + 1) (some (classify_pager_duty_error e))
        (after_failure attempt e s)
]

abbrev pub is_accepted : Option NotificationError → Bool
is_accepted none = true
is_accepted (some err) = false

-- A reservation round a send, with the deferred completion: `reserved` and `completed` are the times
-- of the two.
unfoldable pub with_reservation :
    Time → Time → AlertMsg → NotifyDest → (Sender → Sent) → Sender → Sent
with_reservation reserved completed msg dest send s =
    let (cache, held) = reserve_delivery reserved s.cache msg dest in
    let (s', err) = send (record s { cache = cache }) in
    if held
    then (
      record s' { cache = complete_delivery completed s'.cache msg dest (is_accepted err) },
      err,
    )
    else (record s { cache = cache }, none)

-- `notifySlack`, `notifyDiscord`, `notifyTelegram`, `notifyPagerDuty`.
module _ (r : Remote) (reserved completed : Time) (msg : AlertMsg) (s : Sender) where
  unfoldable pub notify_slack : Sent
  notify_slack =
      if msg.slk
      then with_reservation reserved completed msg slk
          (post_webhook r "slack" (r.marshal_slack (build_slack_message msg)) msg.slk_hook 200) s
      else (s, none)

  unfoldable pub notify_discord : Sent
  notify_discord =
      if msg.disc
      then with_reservation reserved completed msg di
          (post_webhook r "discord" (r.marshal_discord (build_discord_message msg)) msg.disc_hook
            204)
          s
      else (s, none)

  unfoldable pub notify_telegram : Sent
  notify_telegram =
      if msg.tg
      then with_reservation reserved completed msg tg (send_telegram r msg) s
      else (s, none)

  unfoldable pub notify_pager_duty : Sent
  notify_pager_duty =
      if msg.pd
      then if str_eq msg.key example_pager_duty_key
        then (s, none)
        else with_reservation reserved completed msg pd
            (pager_duty_attempts r (build_pager_duty_event msg) pager_duty_max_attempts 1 none) s
      else (s, none)

-- `deliverAlert` starts the four sends at once. This is one schedule of them, each send whole;
-- AlarmCache.Trace has them all.
unfoldable pub deliver_alert : Remote → Time → Time → AlertMsg → Sender → Sender
deliver_alert r reserved completed msg s =
    let (s1, _) = notify_pager_duty r reserved completed msg s in
    let (s2, _) = notify_discord r reserved completed msg s1 in
    let (s3, _) = notify_telegram r reserved completed msg s2 in
    (notify_slack r reserved completed msg s3).0
