-- ===== src/Blocks/Rounds.antt =====
-- One round of the result worker of seer/ws.go: votes and other early updates, then the final block.
use Prim.Native.Nat.{max}
use tenderduty_nos.Prelude.{
  ℕ, true, false, not, ◌||◌, ◌≡◌, refl, arith, if◌then◌else◌, none, some, inl, inr, Option-cases,
  List, [], ◌∷◌, All,
}
use tenderduty_nos.Config.{ChainConfig, Config, ValInfo}
use tenderduty_nos.Alerts.{record_final_block}
use tenderduty_nos.Blocks.Events.{StatusType, unset, rank, status_int, StatusUpdate}
use tenderduty_nos.Blocks.Worker.{
  WorkerState, Moment, worker_step, worker_run, begin_block, close_block, raise_status,
  record_block_result, count_result,
}

-- The status after one update, and after early updates.
abbrev noted : Moment → StatusUpdate → StatusType → StatusType
noted t u st = elim t.val_info [ none ↦ st | some v ↦ raise_status v u st ]

raised : List (Moment × StatusUpdate) → StatusType → StatusType
raised [] st = st
raised ((t, u) ∷ us) st = raised us (noted t u st)

abbrev IsEarly : Moment × StatusUpdate → Type 0
IsEarly x = x.1.final ≡ false

early_step :
    (t : Moment) (td : Config) (u : StatusUpdate) (s : WorkerState)
    → u.final ≡ false
    → worker_step t td u s ≡ record s { sign_state = noted t u s.sign_state }
unfolding worker_step
early_step t td u s e = elim (Option-cases t.val_info) [
  | inl n ↦ rw (worker_step, n) refl
  | inr (v, g) ↦ rw (worker_step, g, e) refl
]

early_run :
    (td : Config) (us : List (Moment × StatusUpdate)) (s : WorkerState)
    → s.running ≡ true
    → All IsEarly us
    → worker_run td us s ≡ record s { sign_state = raised us s.sign_state }
unfolding worker_run raised
early_run td [] s r e = refl
early_run td ((t, u) ∷ us) s r (e, es) =
    let s' = record s { sign_state = noted t u s.sign_state } in
    ground (arith, early_step t td u s e, early_run td us s' r es)

-- The rank that an update counts with: that of its status where the validator is bonded at that moment.
pub counted : Moment → StatusUpdate → ℕ
counted t u = elim t.val_info [ none ↦ 0 | some v ↦ if v.bonded then rank u.status else 0 ]

-- The highest of a number and the ranks of updates.
pub highest : List (Moment × StatusUpdate) → ℕ → ℕ
highest [] n = n
highest ((t, u) ∷ us) n = highest us (max n (counted t u))

rank-noted :
    (t : Moment) (u : StatusUpdate) (st : StatusType)
    → rank (noted t u st) ≡ max (rank st) (counted t u)
unfolding counted raise_status
rank-noted t u st = ground arith

rank-raised :
    (us : List (Moment × StatusUpdate)) (st : StatusType)
    → rank (raised us st) ≡ highest us (rank st)
unfolding raised highest
rank-raised [] st = refl
rank-raised ((t, u) ∷ us) st = ground (arith, rank-noted t u st, rank-raised us (noted t u st))

-- What counting leaves alone.
module _ (cc : ChainConfig) where
  blocks_results-count_result :
      (r : StatusType) → (count_result r cc).blocks_results ≡ cc.blocks_results
  unfolding count_result
  blocks_results-count_result unset = refl
  blocks_results-count_result _ = refl

  last_block_num-count_result :
      (r : StatusType) → (count_result r cc).last_block_num ≡ cc.last_block_num
  unfolding count_result
  last_block_num-count_result unset = refl
  last_block_num-count_result _ = refl

  last_block_time-count_result :
      (r : StatusType) → (count_result r cc).last_block_time ≡ cc.last_block_time
  unfolding count_result
  last_block_time-count_result unset = refl
  last_block_time-count_result _ = refl

abbrev Closes : WorkerState → StatusType → WorkerState → Type 0
Closes s st s' =
    (s'.sign_state ≡ unset)
    × (s'.cc.blocks_results ≡ record_block_result (status_int st) s.cc.blocks_results)
    × (s'.cc.last_block_num ≡ s.cc.last_block_num)
    × (s'.cc.last_block_time ≡ s.cc.last_block_time)

close_block-Closes :
    (t : Moment) (td : Config) (v : ValInfo) (u : StatusUpdate) (s : WorkerState)
    → Closes s s.sign_state (close_block t td v u s)
unfolding close_block
close_block-Closes t td v u s = (
  refl,
  rw blocks_results-count_result (ground arith),
  rw last_block_num-count_result (ground arith),
  rw last_block_time-count_result (ground arith),
)

final_step :
    (t : Moment) (td : Config) (u : StatusUpdate) (s : WorkerState) (v : ValInfo)
    → t.val_info ≡ some v
    → u.final ≡ true
    → (not td.prom || t.live_block) ≡ true
    → let s' = worker_step t td u s in
      (s'.sign_state ≡ unset)
      × (s'.cc.blocks_results
          ≡ record_block_result (status_int (noted t u s.sign_state)) s.cc.blocks_results)
      × (s'.cc.last_block_num ≡ u.height)
      × (s'.cc.last_block_time ≡ t.now)
unfolding worker_step begin_block record_final_block
final_step t td u s v h f live = ground (
  arith,
  close_block-Closes t td v u (
      begin_block t td u (record s {
        cc = record s.cc { val_info = some v };
        sign_state = raise_status v u s.sign_state;
      })),
)

-- A whole round of the worker, from the state after the last final block: early updates and then the
-- final one, which finds the validator's state known. What is recorded for the block is the status of
-- the highest rank among the updates at whose moment the validator is bonded, and `unset` where there
-- is none; the block's height and time are recorded, and the next round starts afresh.
pub round_result :
    (td : Config) (us : List (Moment × StatusUpdate)) (t : Moment) (u : StatusUpdate)
    (s : WorkerState) (v : ValInfo)
    → t.val_info ≡ some v
    → s.running ≡ true
    → s.sign_state ≡ unset
    → All IsEarly us
    → u.final ≡ true
    → (not td.prom || t.live_block) ≡ true
    → let s' = worker_step t td u (worker_run td us s) in
      (result : StatusType) × (rank result ≡ max (highest us 0) (counted t u))
      × (s'.cc.blocks_results ≡ record_block_result (status_int result) s.cc.blocks_results)
      × (s'.cc.last_block_num ≡ u.height)
      × (s'.cc.last_block_time ≡ t.now)
      × (s'.sign_state ≡ unset)
round_result td us t u s v h r a es f live =
    let s1 = record s { sign_state = raised us s.sign_state } in
    let (a1, a2, a3, a4) = final_step t td u s1 v h f live in
    rw (early_run td us s r es) (
      noted t u (raised us s.sign_state),
      ground (arith, rank-noted t u (raised us s.sign_state), rank-raised us s.sign_state, a),
      a2,
      a3,
      a4,
      a1,
    )
