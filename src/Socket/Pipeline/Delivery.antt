-- ===== src/Socket/Pipeline/Delivery.antt =====
-- What reaches the result worker of the messages that were read (seer/ws.go).
use mathlib.Core.List.{append_assoc, append-nil}
use tenderduty_nos.Prelude.{
  true, false, ◌≡◌, refl, sym, ap, ◌∙◌, arith, some, List, [], ◌∷◌, ◌++◌, String, subst,
  if◌then◌else◌, Option-cases, Bool-cases, inl, inr,
}
use tenderduty_nos.Config.{Config}
use tenderduty_nos.Blocks.{
  StatusUpdate, WorkerState, Moment, worker_step, worker_run, BlockEvent, classify_block_event,
  VoteEvent, classify_vote_event, decode_block_event, decode_vote_event,
}
use tenderduty_nos.Socket.Messages.{WsReply, Frames, route, block_update, vote_update, reply_value}
use tenderduty_nos.Socket.Pipeline.{
  Pipe, opened, Step, read_message, hand_block, hand_vote, take_block, take_vote, Reach, here, next,
  held, block_of, vote_of, blocks_of, votes_of, final_of, early_of,
}

classify_block_event-final : (e : BlockEvent) (a : String) → (classify_block_event e a).final ≡ true
unfolding classify_block_event
classify_block_event-final e a = ground arith

classify_vote_event-early :
    (e : VoteEvent) (a : String) (u : StatusUpdate)
    → classify_vote_event e a ≡ some u
    → u.final ≡ false
unfolding classify_vote_event
classify_vote_event-early e a u h = ground (arith, h)

final_of-snoc :
    (xs : List (Moment × StatusUpdate)) (t : Moment) (u : StatusUpdate)
    → final_of (xs ++ ((t, u) ∷ [])) ≡ final_of xs ++ (if u.final then u ∷ [] else [])
unfolding final_of
final_of-snoc [] t u = ground arith
final_of-snoc ((s, v) ∷ xs) t u = ground (arith, final_of-snoc xs t u)

early_of-snoc :
    (xs : List (Moment × StatusUpdate)) (t : Moment) (u : StatusUpdate)
    → early_of (xs ++ ((t, u) ∷ [])) ≡ early_of xs ++ (if u.final then [] else u ∷ [])
unfolding early_of
early_of-snoc [] t u = ground arith
early_of-snoc ((s, v) ∷ xs) t u = ground (arith, early_of-snoc xs t u)

worker_run-snoc :
    (td : Config) (xs : List (Moment × StatusUpdate)) (t : Moment) (u : StatusUpdate)
    (s : WorkerState)
    → (worker_run td xs s).running ≡ true
    → worker_run td (xs ++ ((t, u) ∷ [])) s ≡ worker_step t td u (worker_run td xs s)
unfolding worker_run
worker_run-snoc td [] t u s h = rw h refl
worker_run-snoc td ((t', v) ∷ xs) t u s h = elim (Bool-cases s.running) [
  | inl e ↦ rw e (worker_run-snoc td xs t u _ (rw e at h))
  | inr e ↦ absurd (ground (arith, h, e))
]

module _ (f : Frames) (address : String) (td : Config) where
  block_update-final :
      (reply : WsReply) (u : StatusUpdate)
      → block_update f.wire address reply ≡ some u
      → u.final ≡ true
  unfolding block_update
  block_update-final reply u h =
      elim (Option-cases (decode_block_event f.wire (reply_value reply))) [
        | inl e ↦ absurd (ground (arith, h, e))
        | inr (event, e) ↦ ground (arith, h, e, classify_block_event-final event address)
      ]

  vote_update-early :
      (reply : WsReply) (u : StatusUpdate)
      → vote_update f.wire address reply ≡ some u
      → u.final ≡ false
  unfolding vote_update
  vote_update-early reply u h = elim (Option-cases (decode_vote_event f.wire (reply_value reply))) [
    | inl e ↦ absurd (ground (arith, h, e))
    | inr (event, e) ↦ classify_vote_event-early event address u (ground (arith, h, e))
  ]

  blocks_of-snoc :
      (xs : List String) (m : String)
      → blocks_of f address (xs ++ (m ∷ []))
        ≡ blocks_of f address xs ++ block_of f address (route f m)
  unfolding blocks_of
  blocks_of-snoc [] m = append-nil _
  blocks_of-snoc (x ∷ xs) m = simp (blocks_of-snoc xs m, append_assoc)

  votes_of-snoc :
      (xs : List String) (m : String)
      → votes_of f address (xs ++ (m ∷ [])) ≡ votes_of f address xs ++ vote_of f address (route f m)
  unfolding votes_of
  votes_of-snoc [] m = append-nil _
  votes_of-snoc (x ∷ xs) m = simp (votes_of-snoc xs m, append_assoc)

  record Inv (v p : Pipe) : Type 0 where
    pub order : v.incoming ≡ p.read ++ p.incoming
    pub blocks :
        blocks_of f address p.read
        ≡ final_of p.taken ++ (held p.block ++ block_of f address p.handed)
    pub votes :
        votes_of f address p.read ≡ early_of p.taken ++ (held p.vote ++ vote_of f address p.handed)
    pub block_final : (u : StatusUpdate) → p.block ≡ some u → u.final ≡ true
    pub vote_early : (u : StatusUpdate) → p.vote ≡ some u → u.final ≡ false
    pub work : p.worker ≡ worker_run td p.taken v.worker

  Step-Inv : {v p q : Pipe} → Step f address td p q → Inv v p → Inv v q
  unfolding held block_of vote_of
  Step-Inv (read_message p m {rest} idle more) inv = record {
    order = inv.order ∙ simp (more, append_assoc);
    blocks = blocks_of-snoc p.read m ∙ simp (inv.blocks, idle, append_assoc, append-nil);
    votes = votes_of-snoc p.read m ∙ simp (inv.votes, idle, append_assoc, append-nil);
    block_final = inv.block_final;
    vote_early = inv.vote_early;
    work = inv.work;
  }
  Step-Inv (hand_block p reply e free) inv = record {
    order = inv.order;
    blocks = inv.blocks ∙ simp (e, free, append-nil);
    votes = inv.votes ∙ simp (e, append-nil);
    block_final = block_update-final reply;
    vote_early = inv.vote_early;
    work = inv.work;
  }
  Step-Inv (hand_vote p reply e free) inv = record {
    order = inv.order;
    blocks = inv.blocks ∙ simp (e, append-nil);
    votes = inv.votes ∙ simp (e, free, append-nil);
    block_final = inv.block_final;
    vote_early = vote_update-early reply;
    work = inv.work;
  }
  Step-Inv {v} (take_block p t u e live) inv =
      let last = inv.block_final u e in
      record {
        order = inv.order;
        blocks = inv.blocks ∙ simp (e, final_of-snoc p.taken t u, last, append_assoc);
        votes = inv.votes ∙ simp (early_of-snoc p.taken t u, last, append-nil);
        block_final = λ x h. cc;
        vote_early = inv.vote_early;
        work =
            ap (worker_step t td u) inv.work
            ∙ sym (
                worker_run-snoc td p.taken t u v.worker
                  (subst (λ s. s.running ≡ true) inv.work live));
      }
  Step-Inv {v} (take_vote p t u e live) inv =
      let early = inv.vote_early u e in
      record {
        order = inv.order;
        blocks = inv.blocks ∙ simp (final_of-snoc p.taken t u, early, append-nil);
        votes = inv.votes ∙ simp (e, early_of-snoc p.taken t u, early, append_assoc);
        block_final = inv.block_final;
        vote_early = λ x h. cc;
        work =
            ap (worker_step t td u) inv.work
            ∙ sym (
                worker_run-snoc td p.taken t u v.worker
                  (subst (λ s. s.running ≡ true) inv.work live));
      }

  Reach-Inv : (v p : Pipe) → Inv v v → Reach f address td v p → Inv v p
  Reach-Inv v _ inv here = inv
  Reach-Inv v _ inv (next r m) = Step-Inv m (Reach-Inv v _ inv r)

  opened-Inv :
      (incoming : List String) (worker : WorkerState)
      → Inv (opened incoming worker) (opened incoming worker)
  unfolding opened held block_of vote_of blocks_of votes_of final_of early_of worker_run
  opened-Inv incoming worker = record {
    order = refl;
    blocks = refl;
    votes = refl;
    block_final = λ u h. cc;
    vote_early = λ u h. cc;
    work = refl;
  }

  -- Whatever the goroutines' order of steps: the messages read are a first part of those that come in; the
  -- final updates that the worker took, then the one that handleBlocks holds, then the one that the
  -- reader holds, are those of the block messages read, in their order, none lost and none twice;
  -- likewise for the votes; and the worker's state is its run over the updates it took.
  pub Reach-delivers :
      (incoming : List String) (worker : WorkerState) (p : Pipe)
      → Reach f address td (opened incoming worker) p
      → (incoming ≡ p.read ++ p.incoming)
        × (blocks_of f address p.read
            ≡ final_of p.taken ++ (held p.block ++ block_of f address p.handed))
        × (votes_of f address p.read
            ≡ early_of p.taken ++ (held p.vote ++ vote_of f address p.handed))
        × (p.worker ≡ worker_run td p.taken worker)
  unfolding opened
  Reach-delivers incoming worker p r =
      let inv = Reach-Inv _ p (opened-Inv incoming worker) r in
      (inv.order, inv.blocks, inv.votes, inv.work)
