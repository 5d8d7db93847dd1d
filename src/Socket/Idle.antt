-- ===== src/Socket/Idle.antt =====
-- When handleBlocks gives up (seer/ws.go).
use tenderduty_nos.Prelude.{
  ◌+◌, ◌<◌, String, ◌≡◌, refl, ap, ◌∙◌, sym, List, [], ◌∷◌, ◌++◌, Time, minute, Bool-cases,
  Option-cases, ltb→lt, lt→ltb, ◌↔◌, inl, inr, ltb,
}
use tenderduty_nos.Blocks.{StatusUpdate, Wire}
use tenderduty_nos.Socket.Messages.{
  WsReply, block_update, BlockInput, tick, arrival, BlockLoop, idle, handle_blocks,
}

-- The time of the last message after a start.
pub last_arrival : Time → List BlockInput → Time
last_arrival start [] = start
last_arrival start (tick now ∷ inputs) = last_arrival start inputs
last_arrival start (arrival now reply ∷ inputs) = last_arrival now inputs

-- A tick that comes more than a minute after the last message before it.
pub IsSilent : Time → List BlockInput → Type 0
IsSilent start inputs =
    (before : List BlockInput) × (now : Time) × (after : List BlockInput) × (inputs
      ≡ before ++ (tick now ∷ after))
    × (last_arrival start before + minute < now)

abbrev Ends : BlockLoop → Type 0
Ends l = (now : Time) × (updates : List StatusUpdate) × (l ≡ idle now updates)

next-arrival :
    (j : Wire) (a : String) (now : Time) (reply : WsReply) (inputs : List BlockInput) (start : Time)
    (us : List StatusUpdate)
    → (vs : List StatusUpdate) × (handle_blocks j a (arrival now reply ∷ inputs) start us
        ≡ handle_blocks j a inputs now vs)
unfolding handle_blocks
next-arrival j a now reply inputs start us = elim (Option-cases (block_update j a reply)) [
  | inl e ↦ (us, rw (handle_blocks, e) refl)
  | inr (u, e) ↦ (u ∷ us, rw (handle_blocks, e) refl)
]

handle_blocks-IsSilent :
    (j : Wire) (a : String) (inputs : List BlockInput) (start : Time) (us : List StatusUpdate)
    → Ends (handle_blocks j a inputs start us)
    → IsSilent start inputs
unfolding handle_blocks IsSilent last_arrival
handle_blocks-IsSilent j a [] start us (now, vs, h) = cc
handle_blocks-IsSilent j a (tick t ∷ inputs) start us h =
    elim (Bool-cases (ltb (start + minute) t)) [
      | inl e ↦ ([], t, inputs, refl, ltb→lt _ _ e)
      | inr e ↦
          let (before, now, after, split, gap) =
            handle_blocks-IsSilent j a inputs start us (rw e at h) in
          (tick t ∷ before, now, after, ap (λ xs. tick t ∷ xs) split, gap)
    ]
handle_blocks-IsSilent j a (arrival t reply ∷ inputs) start us (now, vs, h) =
    let (ws, e) = next-arrival j a t reply inputs start us in
    let (before, at, after, split, gap) =
      handle_blocks-IsSilent j a inputs t ws (now, vs, sym e ∙ h) in
    (arrival t reply ∷ before, at, after, ap (λ xs. arrival t reply ∷ xs) split, gap)

IsSilent-Ends :
    (j : Wire) (a : String) (before after : List BlockInput) (now : Time) (start : Time)
    (us : List StatusUpdate)
    → last_arrival start before + minute < now
    → Ends (handle_blocks j a (before ++ (tick now ∷ after)) start us)
unfolding handle_blocks last_arrival
IsSilent-Ends j a [] after now start us gap = (now, us, rw (lt→ltb _ _ gap) refl)
IsSilent-Ends j a (tick t ∷ before) after now start us gap =
    elim (Bool-cases (ltb (start + minute) t)) [
      | inl e ↦ (t, us, rw e refl)
      | inr e ↦ rw e (IsSilent-Ends j a before after now start us gap)
    ]
IsSilent-Ends j a (arrival t reply ∷ before) after now start us gap =
    let (ws, e) = next-arrival j a t reply (before ++ (tick now ∷ after)) start us in
    let (at, vs, h) = IsSilent-Ends j a before after now t ws gap in (at, vs, e ∙ h)

-- handleBlocks gives up exactly when some tick comes more than a minute after the last block before it,
-- or after the start where there was none; a block that cannot be decoded counts.
pub handle_blocks_iff :
    (j : Wire) (address : String) (inputs : List BlockInput) (start : Time)
    → ((now : Time) × (updates : List StatusUpdate) × (handle_blocks j address inputs start []
          ≡ idle now updates))
      ↔ IsSilent start inputs
unfolding IsSilent
handle_blocks_iff j address inputs start = (
  handle_blocks-IsSilent j address inputs start [],
  λ (before, now, after, split, gap).
      rw split (IsSilent-Ends j address before after now start [] gap),
)
