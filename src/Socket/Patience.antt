-- ===== src/Socket/Patience.antt =====
-- What WsRun leaves behind, and how long it waits (seer/ws.go).
use tenderduty_nos.Prelude.{
  ◌+◌, ◌*◌, ◌≤◌, String, Bool, true, false, ◌≡◌, ◌≢◌, ◌⊎◌, inl, inr, refl, sym, ap, ◌∙◌, arith,
  Option, none, some, List, [], ◌∷◌, ◌++◌, length, Time, second, minute, Option-cases, Bool-cases,
  Reply-cases, ltb, got,
}
use tenderduty_nos.Config.{ValInfo}
use tenderduty_nos.Socket.Client.{dialed, blank, Net, new_client}
use tenderduty_nos.Socket.Session.{
  Look, Startup, ready, timed_out, cancelled, undecided, snapshot_ready, wait_for_client, Socket,
  close_web_socket, query_new_block, query_vote, subscription, subscribe, open_web_socket, Ended,
  returned, panicked, waiting, ws_run,
}

-- Each look comes 30 seconds or more after the one before it.
unfoldable pub IsSpaced : Time → List Look → Type 0
IsSpaced t [] = Unit
IsSpaced t (look ∷ looks) = (t ≤ look.now) × IsSpaced (look.now + 30 * second) looks

undecided_late :
    (started t : Time) (looks : List Look)
    → t ≤ started + (2 * minute + 30 * second)
    → IsSpaced t looks
    → wait_for_client started looks ≡ undecided
    → t + 30 * second * length looks ≤ started + (2 * minute + 30 * second)
unfolding wait_for_client IsSpaced
undecided_late started t [] early spaced h = omega (arith, early)
undecided_late started t (look ∷ looks) early (later, spaced) h =
    elim (Option-cases (snapshot_ready look.chain)) [
      | inr (x, e) ↦ absurd (ground (arith, h, e))
      | inl e ↦ elim (Bool-cases (ltb (started + 2 * minute) look.now)) [
        | inl f ↦ absurd (ground (arith, h, e, f))
        | inr f ↦ elim (Bool-cases look.waited) [
          | inr g ↦ absurd (ground (arith, h, e, f, g))
          | inl g ↦
              let early' : look.now ≤ started + 2 * minute = ground (arith, f) in
              let rest =
                undecided_late started (look.now + 30 * second) looks (omega (arith, early')) spaced
                  (ground (arith, h, e, f, g)) in
              omega (arith, later, rest)
        ]
      ]
    ]

-- Six looks are enough for WsRun to have found an endpoint or to have given up.
pub wait_for_client-decided :
    (started : Time) (looks : List Look)
    → IsSpaced started looks
    → 6 ≤ length looks
    → wait_for_client started looks ≢ undecided
wait_for_client-decided started looks spaced many h =
    omega (arith, undecided_late started started looks (omega arith) spaced h, many)

-- No connection is open, and all that were opened are closed, in the order of their opening.
unfoldable pub IsClosed : Socket → Type 0
IsClosed s = (s.wsclient ≡ none) × (s.closed ≡ s.opened)

close_web_socket-IsClosed : (s : Socket) → IsClosed s → IsClosed (close_web_socket s)
unfolding close_web_socket IsClosed
close_web_socket-IsClosed s h = ground (arith, h.0, h.1)

close_web_socket-held :
    (s : Socket) (c : String)
    → s.wsclient ≡ some c
    → s.opened ≡ s.closed ++ (c ∷ [])
    → IsClosed (close_web_socket s)
unfolding close_web_socket IsClosed
close_web_socket-held s c h o = ground (arith, h, o)

subscribe-keeps :
    (write : String → Option String) (queries : List String) (s : Socket)
    → ((subscribe write queries s).0.wsclient ≡ s.wsclient)
      × ((subscribe write queries s).0.opened ≡ s.opened)
      × ((subscribe write queries s).0.closed ≡ s.closed)
unfolding subscribe
subscribe-keeps write [] s = (refl, refl, refl)
subscribe-keeps write (q ∷ qs) s = elim (Option-cases (write (subscription q))) [
  | inr (t, e) ↦ rw (subscribe, e) (refl, refl, refl)
  | inl e ↦ rw (subscribe, e) (subscribe-keeps write qs _)
]

subscribed-IsClosed :
    (write : String → Option String) (queries : List String) (c : String) (s : Socket)
    → IsClosed s
    → IsClosed
        (close_web_socket (close_web_socket (subscribe write queries (open_web_socket c s)).0))
unfolding open_web_socket IsClosed
subscribed-IsClosed write queries c s h =
    let k = subscribe-keeps write queries (open_web_socket c s) in
    close_web_socket-IsClosed _ (
      close_web_socket-held _ c (k.0)
        (k.1 ∙ ap (λ xs. xs ++ (c ∷ [])) (sym (h.1)) ∙ ap (λ xs. xs ++ (c ∷ [])) (sym (k.2))))

-- The wait finds an endpoint that NewClientContext accepts and does not dial.
unfoldable pub FindsBlank : Net → Time → List Look → Type 0
FindsBlank net started looks =
    (client : String) × (v : ValInfo) × (wait_for_client started looks ≡ ready client v)
    × (new_client net client true ≡ got blank)

abbrev pub Finishes : Net → Time → List Look → Socket × Ended → Type 0
Finishes net started looks r =
    IsClosed r.0
    × (((r.1 ≡ panicked) × FindsBlank net started looks)
        ⊎ (((watched : Bool) × (r.1 ≡ returned watched))
            ⊎ ((r.1 ≡ waiting) × (wait_for_client started looks ≡ undecided))))

-- However WsRun goes, it leaves no connection open.
pub ws_run-Finishes :
    (net : Net) (write : String → Option String) (started : Time) (looks : List Look) (s : Socket)
    → IsClosed s
    → Finishes net started looks (ws_run net write started looks s)
unfolding ws_run FindsBlank
ws_run-Finishes net write started looks s h = closed (wait_for_client started looks) refl
  where
    closed :
        (w : Startup)
        → wait_for_client started looks ≡ w
        → Finishes net started looks (ws_run net write started looks s)
    closed timed_out e = rw (ws_run, e) (close_web_socket-IsClosed s h, inr (inl (false, refl)))
    closed cancelled e = rw (ws_run, e) (close_web_socket-IsClosed s h, inr (inl (false, refl)))
    closed undecided e = rw (ws_run, e) (h, inr (inr (refl, refl)))
    closed (ready client v) e = elim (Reply-cases (new_client net client true)) [
      | inr (t, f) ↦ rw (ws_run, e, f) (close_web_socket-IsClosed s h, inr (inl (false, refl)))
      | inl (blank, f) ↦ rw (ws_run, e, f) (h, inl (refl, (client, v, refl, f)))
      | inl (dialed c, f) ↦
          rw (ws_run, e, f)
            (
              subscribed-IsClosed write (query_new_block ∷ query_vote ∷ []) c s h,
              inr (inl (_, refl)),
            )
    ]
