-- ===== src/Server/Kept.antt =====
-- What the dashboard keeps (seer/dashboard/server.go).
use tenderduty_nos.Prelude.{
  ℕ, suc, zero, ◌≤◌, String, Bool, true, false, ◌≡◌, refl, sym, ap, ◌∙◌, arith, if◌then◌else◌,
  Option, none, some, List, [], ◌∷◌, length, take, drop_last, str_eq, lookup, insert, leb,
  Bool-cases, Option-cases, inl, inr, lookup-insert,
}
use tenderduty_nos.Blocks.{ChainStatus}
use tenderduty_nos.Server.Serve.{
  LogMessage, Pages, Board, log_length, new_board, redacted, push_log, Event, tick, updated, logged,
  take_log, take_status, sort_by_name, serve_step, serve_run,
}

-- The lines so far, the newest in front.
pub all_logs : List Event → List LogMessage → List LogMessage
all_logs [] ls = ls
all_logs (tick ∷ es) ls = all_logs es ls
all_logs (updated u ∷ es) ls = all_logs es ls
all_logs (logged l ∷ es) ls = all_logs es (l ∷ ls)

-- The last status of a chain.
pub last_status : Pages → Bool → String → List Event → Option ChainStatus → Option ChainStatus
last_status p hide_logs name [] s = s
last_status p hide_logs name (tick ∷ es) s = last_status p hide_logs name es s
last_status p hide_logs name (logged l ∷ es) s = last_status p hide_logs name es s
last_status p hide_logs name (updated u ∷ es) s =
    last_status p hide_logs name es
      (if str_eq name (redacted p hide_logs u).name then some (redacted p hide_logs u) else s)

take-take : (n : ℕ) (xs : List LogMessage) → take n (take (suc n) xs) ≡ take n xs
take-take zero xs = refl
take-take (suc n) [] = refl
take-take (suc n) (x ∷ xs) = ap (λ ys. x ∷ ys) (take-take n xs)

take_full : (n : ℕ) (xs : List LogMessage) → length xs ≤ n → take n xs ≡ xs
take_full zero [] h = refl
take_full (suc n) [] h = refl
take_full zero (x ∷ xs) h = absurd (omega (arith, h))
take_full (suc n) (x ∷ xs) h = ap (λ ys. x ∷ ys) (take_full n xs (omega (arith, h)))

length-take_le : (n : ℕ) (xs : List LogMessage) → length (take n xs) ≤ n
length-take_le zero xs = omega arith
length-take_le (suc n) [] = omega arith
length-take_le (suc n) (x ∷ xs) = omega (arith, length-take_le n xs)

drop_last-take : (n : ℕ) (xs : List LogMessage) → length xs ≡ suc n → drop_last xs ≡ take n xs
drop_last-take n [] h = absurd (omega (arith, h))
drop_last-take zero (x ∷ []) h = refl
drop_last-take (suc n) (x ∷ []) h = absurd (omega (arith, h))
drop_last-take zero (x ∷ (y ∷ ys)) h = absurd (omega (arith, h))
drop_last-take (suc n) (x ∷ (y ∷ ys)) h =
    ap (λ zs. x ∷ zs) (drop_last-take n (y ∷ ys) (omega (arith, h)))

push-take :
    (n : ℕ) (l : LogMessage) (ls : List LogMessage)
    → (if leb (suc n) (length (take (suc n) ls))
        then l ∷ drop_last (take (suc n) ls)
        else l ∷ take (suc n) ls)
      ≡ l ∷ take n ls
push-take n l ls =
    let bound = length-take_le (suc n) ls in
    elim (Bool-cases (leb (suc n) (length (take (suc n) ls)))) [
      | inl e ↦
          let full : length (take (suc n) ls) ≡ suc n = ground (arith, e, bound) in
          rw e (ap (λ xs. l ∷ xs) (drop_last-take n (take (suc n) ls) full ∙ take-take n ls))
      | inr e ↦
          let short : length (take (suc n) ls) ≤ n = ground (arith, e) in
          rw e (ap (λ xs. l ∷ xs) (sym (take_full n (take (suc n) ls) short) ∙ take-take n ls))
    ]

push_log-take :
    (l : LogMessage) (ls : List LogMessage)
    → push_log l (take log_length ls) ≡ take log_length (l ∷ ls)
unfolding push_log
push_log-take l ls = push-take 255 l ls

take_log-keeps :
    (p : Pages) (l : LogMessage) (b : Board)
    → ((take_log p l b).logs ≡ push_log l b.logs) × ((take_log p l b).status ≡ b.status)
unfolding take_log
take_log-keeps p l b = elim (Option-cases (p.logs_json (push_log l b.logs))) [
  | inl e ↦ rw (take_log, e) (refl, refl)
  | inr (j, e) ↦ elim (Option-cases (p.log_json l)) [
    | inl f ↦ rw (take_log, e, f) (refl, refl)
    | inr (k, f) ↦ rw (take_log, e, f) (refl, refl)
  ]
]

take_status-keeps :
    (p : Pages) (hide_logs : Bool) (u : ChainStatus) (b : Board)
    → ((take_status p hide_logs u b).logs ≡ b.logs)
      × ((take_status p hide_logs u b).status
          ≡ insert (redacted p hide_logs u).name (redacted p hide_logs u) b.status)
unfolding take_status
take_status-keeps p hide_logs u b =
    let u' = redacted p hide_logs u in
    elim (Option-cases (p.status_json (sort_by_name (insert u'.name u' b.status)))) [
      | inl e ↦ rw (take_status, e) (refl, refl)
      | inr (j, e) ↦ rw (take_status, e) (refl, refl)
    ]

tick-keeps :
    (p : Pages) (hide_logs : Bool) (b : Board)
    → ((serve_step p hide_logs tick b).logs ≡ b.logs)
      × ((serve_step p hide_logs tick b).status ≡ b.status)
unfolding serve_step
tick-keeps p hide_logs b = elim (Bool-cases b.update) [
  | inl e ↦ rw (serve_step, e) (refl, refl)
  | inr e ↦ rw (serve_step, e) (refl, refl)
]

kept_logs :
    (p : Pages) (es : List Event) (ls : List LogMessage) (b : Board)
    → b.logs ≡ take log_length ls
    → (serve_run p false es b).logs ≡ take log_length (all_logs es ls)
unfolding serve_run serve_step all_logs
kept_logs p [] ls b h = h
kept_logs p (tick ∷ es) ls b h = kept_logs p es ls _ ((tick-keeps p false b).0 ∙ h)
kept_logs p (updated u ∷ es) ls b h = kept_logs p es ls _ ((take_status-keeps p false u b).0 ∙ h)
kept_logs p (logged l ∷ es) ls b h =
    kept_logs p es (l ∷ ls) _ ((take_log-keeps p l b).0 ∙ ap (push_log l) h ∙ push_log-take l ls)

hidden_logs : (p : Pages) (es : List Event) (b : Board) → (serve_run p true es b).logs ≡ b.logs
unfolding serve_run serve_step
hidden_logs p [] b = refl
hidden_logs p (tick ∷ es) b = hidden_logs p es _ ∙ (tick-keeps p true b).0
hidden_logs p (updated u ∷ es) b = hidden_logs p es _ ∙ (take_status-keeps p true u b).0
hidden_logs p (logged l ∷ es) b = hidden_logs p es b

kept_status :
    (p : Pages) (hide_logs : Bool) (name : String) (es : List Event) (b : Board)
    → lookup name (serve_run p hide_logs es b).status
      ≡ last_status p hide_logs name es (lookup name b.status)
unfolding serve_run serve_step last_status
kept_status p hide_logs name [] b = refl
kept_status p hide_logs name (tick ∷ es) b =
    kept_status p hide_logs name es _
    ∙ ap (λ m. last_status p hide_logs name es (lookup name m)) (tick-keeps p hide_logs b).1
kept_status p hide_logs name (updated u ∷ es) b =
    let u' = redacted p hide_logs u in
    kept_status p hide_logs name es _
    ∙ ap (λ m. last_status p hide_logs name es (lookup name m))
        (take_status-keeps p hide_logs u b).1
    ∙ ap (last_status p hide_logs name es) (lookup-insert u'.name name u' b.status)
kept_status p true name (logged l ∷ es) b = kept_status p true name es b
kept_status p false name (logged l ∷ es) b =
    kept_status p false name es _
    ∙ ap (λ m. last_status p false name es (lookup name m)) (take_log-keeps p l b).1

-- After any series of events the dashboard holds at most 256 log lines: the newest ones, in order, or none
-- at all where logs are hidden. For each chain it holds the last status that came, redacted.
pub serve_run-keeps :
    (p : Pages) (hide_logs : Bool) (es : List Event) (name : String)
    → let b = serve_run p hide_logs es new_board in
      (length b.logs ≤ log_length)
      × (b.logs ≡ (if hide_logs then [] else take log_length (all_logs es [])))
      × (lookup name b.status ≡ last_status p hide_logs name es none)
unfolding new_board lookup
serve_run-keeps p true es name =
    let none_kept = hidden_logs p es new_board in
    (omega (arith, ap length none_kept), none_kept, kept_status p true name es new_board)
serve_run-keeps p false es name =
    let kept = kept_logs p es [] new_board refl in
    (
      omega (arith, ap length kept, length-take_le log_length (all_logs es [])),
      kept,
      kept_status p false name es new_board,
    )
