-- ===== src/Notify/Services.antt =====
-- When a webhook counts as accepted, and PagerDuty's retry loop (seer/alert.go).
use tenderduty_nos.Prelude.{ℕ, String, ◌≡◌, ◌↔◌, refl, arith, Option, none, some, [], ◌∷◌, ◌++◌}
use tenderduty_nos.Notify.Messages.{PagerDutyEvent}
use tenderduty_nos.Notify.Send.{
  ForeignError, Answer, Encoded, Remote, Sender, Sent, observe_error, observe_accepted,
  post_webhook, pager_duty_attempts, after_failure, classify_pager_duty_error,
  pager_duty_max_attempts, pager_duty_retry_delay,
}

-- PagerDuty's loop, by what the first two calls answer: one call when the first is accepted; else a
-- pause and a second call, whose answer counts. There is no third, and no pause after the last.
pub pager_duty_retry : Option ForeignError → Option ForeignError → Sender → Sent
pager_duty_retry none answer s = observe_accepted s "pagerduty"
pager_duty_retry (some e) none s =
    let (s', _) = observe_error s "pagerduty" (classify_pager_duty_error e) in
    observe_accepted (record s' { slept = s'.slept ++ (pager_duty_retry_delay ∷ []) }) "pagerduty"
pager_duty_retry (some e) (some f) s =
    let (s', _) = observe_error s "pagerduty" (classify_pager_duty_error e) in
    observe_error (record s' { slept = s'.slept ++ (pager_duty_retry_delay ∷ []) }) "pagerduty"
      (classify_pager_duty_error f)

-- The retry loop of PagerDuty is this description, for every pair of answers.
pub pager_duty_attempts-eq-retry :
    (r : Remote) (event : PagerDutyEvent) (s : Sender)
    → pager_duty_attempts r event pager_duty_max_attempts 1 none s
      ≡ pager_duty_retry (r.manage_event 1 event) (r.manage_event 2 event) s
unfolding pager_duty_attempts pager_duty_retry after_failure
pager_duty_attempts-eq-retry r event s = ground arith

-- A webhook counts as accepted exactly when the payload encodes, the request can be built, and the
-- server answers with the expected status.
pub post_webhook_iff :
    (r : Remote) (destination : String) (e : Encoded) (hook : String) (expected : ℕ) (s : Sender)
    → ((post_webhook r destination e hook expected s).1 ≡ none) ↔ (
        (body : String) × (e ≡ Encoded.bytes body)
        × (r.new_request hook body ≡ none)
        × (r.http_do hook body ≡ Answer.status expected))
unfolding post_webhook
post_webhook_iff r destination (Encoded.failed e) hook expected s = ground arith
post_webhook_iff r destination (Encoded.bytes body) hook expected s =
    (λ h. (body, refl, ground arith, ground arith), λ h. ground arith)
