-- ===== src/Blocks/Events.antt =====
-- Decoding and classifying block and vote events. `encoding/json` is a parameter: it fills the wire
-- struct or fails. `parse_int` is strconv.ParseInt, with a value beside an error too: 0 for a text that is no
-- number, the nearest number for one that is out of range. No height is negative.
use tenderduty_nos.Prelude.{
  ℕ, String, Bool, true, false, ◌||◌, if◌then◌else◌, Option, none, some, List, [], ◌∷◌, ◌==◌,
  str_eq, ℤ, pos, negsuc,
}

-- `unset` is the worker's -1.
pub data StatusType : Type 0 where
  unset missed prevote precommit signed proposed : StatusType

-- One more than the source's number.
abbrev pub rank : StatusType → ℕ
rank unset = 0
rank missed = 1
rank prevote = 2
rank precommit = 3
rank signed = 4
rank proposed = 5

abbrev pub status_int : StatusType → ℤ
status_int unset = negsuc 0
status_int missed = pos 0
status_int prevote = pos 1
status_int precommit = pos 2
status_int signed = pos 3
status_int proposed = pos 4

pub record StatusUpdate : Type 0 where
  pub height : ℕ
  pub status : StatusType
  pub final : Bool

pub record BlockEvent : Type 0 where
  pub height : ℕ
  pub proposer_address : String
  pub validator_addresses : List String

abbrev pub vote_type_prevote : ℕ
vote_type_prevote = 1

abbrev pub vote_type_precommit : ℕ
vote_type_precommit = 2

abbrev pub vote_type_proposal : ℕ
vote_type_proposal = 32

pub record VoteEvent : Type 0 where
  pub vote_type : ℕ
  pub height : ℕ
  pub validator_address : String

-- The loop over the signers.
unfoldable pub has_signer : List String → String → Bool
has_signer [] address = false
has_signer (signer ∷ signers) address = str_eq signer address || has_signer signers address

unfoldable pub classify_block_event : BlockEvent → String → StatusUpdate
classify_block_event event validator_address =
    let update : StatusType → StatusUpdate =
      λ s. record { height = event.height; status = s; final = true } in
    if str_eq event.proposer_address validator_address
    then update proposed
    else if has_signer event.validator_addresses validator_address
    then update signed
    else update missed

unfoldable pub vote_status : ℕ → StatusType
vote_status t =
    if t == vote_type_prevote
    then prevote
    else if t == vote_type_precommit
    then precommit
    else if t == vote_type_proposal
    then proposed
    else missed

-- `none` is the answer `false`.
unfoldable pub classify_vote_event : VoteEvent → String → Option StatusUpdate
unfolding vote_status
classify_vote_event event validator_address =
    if str_eq event.validator_address validator_address
    then some
        (record { height = event.height; status = vote_status event.vote_type; final = false })
    else none

-- The wire structs, with the fields that the source reads.
pub record BlockWire : Type 0 where
  pub height : String
  pub proposer_address : String
  pub signatures : List String

pub record VoteWire : Type 0 where
  pub vote_type : ℕ
  pub height : String
  pub validator_address : String

pub record Wire : Type 0 where
  pub unmarshal_block : String → Option BlockWire
  pub unmarshal_vote : String → Option VoteWire
  pub parse_int : String → ℕ × Option String

-- `stringInt64.val`, which leaves the error aside.
unfoldable pub string_int64_val : Wire → String → ℕ
string_int64_val j value = (j.parse_int value).0

unfoldable pub decode_block_event : Wire → String → Option BlockEvent
unfolding string_int64_val
decode_block_event j payload = elim (j.unmarshal_block payload) [
  | none ↦ none
  | some w ↦ some (record {
    height = string_int64_val j w.height;
    proposer_address = w.proposer_address;
    validator_addresses = w.signatures;
  })
]

unfoldable pub decode_vote_event : Wire → String → Option VoteEvent
unfolding string_int64_val
decode_vote_event j payload = elim (j.unmarshal_vote payload) [
  | none ↦ none
  | some w ↦ some (record {
    vote_type = w.vote_type;
    height = string_int64_val j w.height;
    validator_address = w.validator_address;
  })
]
