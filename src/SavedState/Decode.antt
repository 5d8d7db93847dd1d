-- ===== src/SavedState/Decode.antt =====
-- The documents of the state file and decodeState (seer/state.go, seer/types.go).
--
-- encoding/json is the parameter `Json`: whether the text is blank, what its first value decodes to,
-- what stands behind it, and the encoder. A nil map or pointer is `none`.
use tenderduty_nos.Prelude.{
  ◌==◌, String, Bool, true, false, ◌&&◌, ◌||◌, if◌then◌else◌, Option, none, some, List, Map, Time,
  ℤ, pos, negsuc, ltb_ℤ,
}

-- The fields of alarmCache that are written to the file.
pub record SavedAlarms : Type 0 where
  pub sent_pd_alarms : Option (Map Time)
  pub sent_tg_alarms : Option (Map Time)
  pub sent_di_alarms : Option (Map Time)
  pub sent_slk_alarms : Option (Map Time)
  pub all_alarms : Option (Map (Map Time))

pub record SavedState : Type 0 where
  pub alarms : Option SavedAlarms
  pub blocks : Option (Map (List ℤ))
  pub nodes_down : Option (Map (Map Time))

pub record StateDocument : Type 0 where
  pub version : ℤ
  pub saved : SavedState

pub record StateLoadInfo : Type 0 where
  pub source : String
  pub version : ℤ
  pub legacy : Bool
  pub recovered_from_backup : Bool

abbrev pub no_info : StateLoadInfo
no_info = record { source = ""; version = pos 0; legacy = false; recovered_from_backup = false }

abbrev pub current_state_version : ℤ
current_state_version = pos 1

pub data IoError : Type 0 where
  not_exist : IoError
  io_failure : String → IoError

pub data StateError : Type 0 where
  unreadable : IoError → StateError
  empty bad_json null_document multiple_values bad_trailing no_fields : StateError
  unsupported : ℤ → StateError

pub data First : Type 0 where
  syntax : First
  null : First
  document : StateDocument → First

pub data Trailing : Type 0 where
  eof value garbage : Trailing

pub record Json : Type 0 where
  pub is_blank : String → Bool
  pub first : String → First
  pub trailing : String → Trailing
  pub encode : StateDocument → Option String

pub data Loaded : Type 0 where
  ok : SavedState → StateLoadInfo → Loaded
  err : StateError → Loaded

abbrev is_none {ℓ} : {A : Type ℓ} → Option A → Bool
is_none none = true
is_none (some a) = false

abbrev pub has_no_fields : SavedState → Bool
has_no_fields s = is_none s.alarms && is_none s.blocks && is_none s.nodes_down

-- `document.Version == 0`
abbrev is_legacy : ℤ → Bool
is_legacy (pos n) = n == 0
is_legacy (negsuc n) = false

-- The checks on a decoded document, in the source's order.
unfoldable pub check_document : StateDocument → Trailing → Loaded
check_document d value = err multiple_values
check_document d garbage = err bad_trailing
check_document d eof =
    if ltb_ℤ d.version (pos 0) || ltb_ℤ current_state_version d.version
    then err (unsupported d.version)
    else if has_no_fields d.saved
    then err no_fields
    else ok d.saved (record no_info { version = d.version; legacy = is_legacy d.version })

unfoldable pub decode_state : Json → String → Loaded
unfolding check_document
decode_state j text = if j.is_blank text then err empty else elim (j.first text) [
  | syntax ↦ err bad_json
  | null ↦ err null_document
  | document d ↦ check_document d (j.trailing text)
]
