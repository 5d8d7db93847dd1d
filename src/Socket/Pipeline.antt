-- ===== src/Socket/Pipeline.antt =====
-- The goroutines of WsRun (seer/ws.go) as steps that interleave in any order: the reader, handleBlocks,
-- handleVotes and the result worker, over channels without a buffer. The end of the context stops the
-- steps, and the minute's tick is in Socket.Messages.
pub mod Delivery
use tenderduty_nos.Prelude.{
  ℕ, Bool, true, false, ◌≡◌, refl, sym, ap, ◌∙◌, arith, Option, none, some, List, [], ◌∷◌, ◌++◌,
  String, if◌then◌else◌,
}
use tenderduty_nos.Config.{Config}
use tenderduty_nos.Blocks.{StatusUpdate, WorkerState, Moment, worker_step, worker_run}
use tenderduty_nos.Socket.Messages.{
  WsReply, Frames, Destination, block_chan, vote_chan, route, block_update, vote_update,
}

-- `handed` is the message that the reader holds out, `block` and `vote` the updates that the handlers
-- hold out. `incoming` is still to be read. `read` and `taken` record what was read and what the worker
-- took, oldest first.
pub record Pipe : Type 0 where
  pub incoming : List String
  pub read : List String
  pub handed : Option Destination
  pub block : Option StatusUpdate
  pub vote : Option StatusUpdate
  pub worker : WorkerState
  pub taken : List (Moment × StatusUpdate)

unfoldable pub opened : List String → WorkerState → Pipe
opened incoming worker = record {
  incoming = incoming;
  read = [];
  handed = none;
  block = none;
  vote = none;
  worker = worker;
  taken = [];
}

unfoldable pub held : Option StatusUpdate → List StatusUpdate
held none = []
held (some update) = update ∷ []

module _ (f : Frames) (address : String) (td : Config) where
  pub data Step : Pipe → Pipe → Type 0 where
    read_message :
        (p : Pipe) (message : String) {rest : List String}
        → p.handed ≡ none
        → p.incoming ≡ message ∷ rest
        → Step p (record p {
          incoming = rest;
          read = p.read ++ (message ∷ []);
          handed = route f message;
        })
    hand_block :
        (p : Pipe) (reply : WsReply)
        → p.handed ≡ some (block_chan reply)
        → p.block ≡ none
        → Step p (record p { handed = none; block = block_update f.wire address reply })
    hand_vote :
        (p : Pipe) (reply : WsReply)
        → p.handed ≡ some (vote_chan reply)
        → p.vote ≡ none
        → Step p (record p { handed = none; vote = vote_update f.wire address reply })
    take_block :
        (p : Pipe) (t : Moment) (update : StatusUpdate)
        → p.block ≡ some update
        → p.worker.running ≡ true
        → Step p (record p {
          block = none;
          worker = worker_step t td update p.worker;
          taken = p.taken ++ ((t, update) ∷ []);
        })
    take_vote :
        (p : Pipe) (t : Moment) (update : StatusUpdate)
        → p.vote ≡ some update
        → p.worker.running ≡ true
        → Step p (record p {
          vote = none;
          worker = worker_step t td update p.worker;
          taken = p.taken ++ ((t, update) ∷ []);
        })

  pub data Reach (v : Pipe) : Pipe → Type 0 where
    here : Reach v v
    next : {p q : Pipe} → Reach v p → Step p q → Reach v q

module _ (f : Frames) (address : String) where
  -- What a message means: the update that its handler makes of it, of the handler's kind.
  unfoldable pub block_of : Option Destination → List StatusUpdate
  block_of none = []
  block_of (some (vote_chan reply)) = []
  block_of (some (block_chan reply)) = held (block_update f.wire address reply)

  unfoldable pub vote_of : Option Destination → List StatusUpdate
  vote_of none = []
  vote_of (some (block_chan reply)) = []
  vote_of (some (vote_chan reply)) = held (vote_update f.wire address reply)

  -- The updates of all messages of a kind, in order.
  unfoldable pub blocks_of : List String → List StatusUpdate
  unfolding block_of
  blocks_of [] = []
  blocks_of (message ∷ messages) = block_of (route f message) ++ blocks_of messages

  unfoldable pub votes_of : List String → List StatusUpdate
  unfolding vote_of
  votes_of [] = []
  votes_of (message ∷ messages) = vote_of (route f message) ++ votes_of messages

-- The updates taken that are final, and those that are not.
unfoldable pub final_of : List (Moment × StatusUpdate) → List StatusUpdate
final_of [] = []
final_of ((t, update) ∷ rest) =
    let others = final_of rest in if update.final then update ∷ others else others

unfoldable pub early_of : List (Moment × StatusUpdate) → List StatusUpdate
early_of [] = []
early_of ((t, update) ∷ rest) =
    let others = early_of rest in if update.final then others else update ∷ others
