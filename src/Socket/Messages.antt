-- ===== src/Socket/Messages.antt =====
-- The messages of the subscription and what the reader and the handlers do with one (seer/ws.go).
-- `Frames` is encoding/json on a message.
use tenderduty_nos.Prelude.{
  ℕ, String, if◌then◌else◌, Option, none, some, str_eq, List, [], ◌∷◌, Time, is_before_ago, minute,
}
use tenderduty_nos.Blocks.{
  StatusUpdate, Wire, decode_block_event, decode_vote_event, classify_block_event,
  classify_vote_event,
}

-- `value` is none where the message has no value.
pub record WsReply : Type 0 where
  pub id : ℕ
  pub query : String
  pub event_type : String
  pub event_value : Option String

pub record Frames : Type 0 where
  pub unmarshal_reply : String → Option WsReply
  pub wire : Wire

unfoldable pub reply_type : WsReply → String
reply_type r = r.event_type

unfoldable pub reply_value : WsReply → String
reply_value r = elim r.event_value [ none ↦ "" | some value ↦ value ]

-- The two channels, and no channel for other messages.
pub data Destination : Type 0 where
  block_chan vote_chan : WsReply → Destination

-- One message read: `none` is `continue`.
unfoldable pub route : Frames → String → Option Destination
unfolding reply_type
route f message = elim (f.unmarshal_reply message) [
  | none ↦ none
  | some reply ↦
      if str_eq (reply_type reply) "tendermint/event/NewBlock"
      then some (block_chan reply)
      else if str_eq (reply_type reply) "tendermint/event/Vote"
      then some (vote_chan reply)
      else none
]

-- What handleBlocks sends for a message from its channel.
unfoldable pub block_update : Wire → String → WsReply → Option StatusUpdate
unfolding reply_value
block_update j address reply = elim (decode_block_event j (reply_value reply)) [
  | none ↦ none
  | some event ↦ some (classify_block_event event address)
]

-- What handleVotes sends.
unfoldable pub vote_update : Wire → String → WsReply → Option StatusUpdate
unfolding reply_value
vote_update j address reply = elim (decode_vote_event j (reply_value reply)) [
  | none ↦ none
  | some event ↦ classify_vote_event event address
]

-- What `select` of handleBlocks may find: the minute's tick or a block.
pub data BlockInput : Type 0 where
  tick : Time → BlockInput
  arrival : Time → WsReply → BlockInput

pub data BlockLoop : Type 0 where
  waiting : Time → List StatusUpdate → BlockLoop
  idle : Time → List StatusUpdate → BlockLoop

-- handleBlocks over a series of inputs. `updates` are those sent, the newest in front, and `idle` is the
-- return with an error.
unfoldable pub handle_blocks :
    Wire → String → List BlockInput → Time → List StatusUpdate → BlockLoop
handle_blocks j address [] last_block updates = waiting last_block updates
handle_blocks j address (tick now ∷ inputs) last_block updates =
    let rest = handle_blocks j address inputs last_block updates in
    if is_before_ago last_block minute now then idle now updates else rest
handle_blocks j address (arrival now reply ∷ inputs) last_block updates =
    elim (block_update j address reply) [
      | none ↦ handle_blocks j address inputs now updates
      | some update ↦ handle_blocks j address inputs now (update ∷ updates)
    ]
