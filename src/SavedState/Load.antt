-- ===== src/SavedState/Load.antt =====
-- loadState with its backup (seer/state.go). `read` is the file system's answer for a path.
use tenderduty_nos.Prelude.{String, ◌<>◌, Bool, true, false, if◌then◌else◌, none}
use tenderduty_nos.SavedState.Decode.{
  SavedState, StateLoadInfo, no_info, IoError, not_exist, StateError, unreadable, Json, Loaded, ok,
  err, decode_state,
}

pub data Read : Type 0 where
  content : String → Read
  failed : IoError → Read

abbrev pub state_backup_suffix : String
state_backup_suffix = ".bak"

unfoldable pub read_state_candidate : Json → (String → Read) → String → Loaded
read_state_candidate j read path = elim (read path) [
  | content text ↦ decode_state j text
  | failed e ↦ err (unreadable e)
]

-- `errors.Is(err, os.ErrNotExist)`
abbrev pub is_not_exist : StateError → Bool
is_not_exist (unreadable not_exist) = true
is_not_exist _ = false

-- The wrapped errors of a failed load.
pub data LoadError : Type 0 where
  bad_primary bad_backup : StateError → LoadError
  bad_both : StateError → StateError → LoadError

pub data LoadResult : Type 0 where
  loaded : SavedState → StateLoadInfo → LoadResult
  refused : LoadError → LoadResult

abbrev pub empty_saved_state : SavedState
empty_saved_state = record { alarms = none; blocks = none; nodes_down = none }

-- What is returned when neither file serves.
unfoldable pub load_failure : StateError → StateError → LoadResult
load_failure primary backup =
    if is_not_exist primary
    then (if is_not_exist backup
        then loaded empty_saved_state no_info
        else refused (bad_backup backup))
    else if is_not_exist backup
    then refused (bad_primary primary)
    else refused (bad_both primary backup)

unfoldable pub load_state_with_reader : Json → (String → Read) → String → LoadResult
unfolding load_failure
load_state_with_reader j read path = elim (read_state_candidate j read path) [
  | ok state info ↦ loaded state (record info { source = path })
  | err primary ↦ elim (read_state_candidate j read (path <> state_backup_suffix)) [
    | ok state info ↦
        loaded state
          (record info { source = path <> state_backup_suffix; recovered_from_backup = true })
    | err backup ↦ load_failure primary backup
  ]
]
