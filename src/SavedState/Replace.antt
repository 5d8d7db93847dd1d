-- ===== src/SavedState/Replace.antt =====
-- writeStateAtomic and atomicReplace (seer/state.go) on a disk that maps paths to contents.
--
-- Every file operation may fail, as the argument `Faults` says; a failed write or flush leaves
-- `partial` in the temporary file. `visited` lists the disk after each change, oldest first: what a
-- crash between two operations leaves. The name of the temporary file is os.CreateTemp's choice.
use tenderduty_nos.Prelude.{
  String, ◌<>◌, Bool, true, false, if◌then◌else◌, Option, none, some, List, [], ◌∷◌, ◌++◌, Map,
  lookup, insert, erase,
}
use tenderduty_nos.SavedState.Decode.{
  SavedState, StateDocument, IoError, not_exist, io_failure, Json, ok, err, decode_state,
  current_state_version,
}
use tenderduty_nos.SavedState.Load.{state_backup_suffix}

abbrev pub Disk : Type 0
Disk = Map String

pub data Stage : Type 0 where
  creating changing_mode writing flushing syncing closing renaming syncing_directory : Stage
  removing : Stage

pub record Faults : Type 0 where
  pub temp_name : String
  pub create_err : Option IoError
  pub chmod_err : Option IoError
  pub write_err : Option IoError
  pub flush_err : Option IoError
  pub partial : String
  pub sync_err : Option IoError
  pub close_err : Option IoError
  pub rename_err : Option IoError
  pub sync_directory_err : Option IoError
  pub remove_err : Option IoError

-- `errors` is the joined error, empty for nil.
pub record Replaced : Type 0 where
  pub disk : Disk
  pub visited : List Disk
  pub errors : List (Stage × IoError)

abbrev pub failure : Stage → Option IoError → List (Stage × IoError)
failure stage none = []
failure stage (some e) = (stage, e) ∷ []

-- The error of `remove`, unless the file was not there.
abbrev remove_failure : IoError → List (Stage × IoError)
remove_failure not_exist = []
remove_failure (io_failure text) = (removing, io_failure text) ∷ []

-- A removal of a file that is not there, which fails in any case.
abbrev missed_removal : Option IoError → List (Stage × IoError)
missed_removal none = []
missed_removal (some e) = remove_failure e

-- The deferred function: close an open file, and remove the temporary file if it still stands.
unfoldable pub clean_up : Faults → Bool → Disk → List Disk → List (Stage × IoError) → Replaced
clean_up f closed d visited errors =
    let errors' = if closed then errors else errors ++ failure closing f.close_err in
    elim (lookup f.temp_name d) [
      | none ↦ record {
        disk = d;
        visited = visited;
        errors = errors' ++ missed_removal f.remove_err;
      }
      | some text ↦ elim f.remove_err [
        | none ↦
            let d' = erase f.temp_name d in
            record { disk = d'; visited = visited ++ (d' ∷ []); errors = errors' }
        | some e ↦ record { disk = d; visited = visited; errors = errors' ++ remove_failure e }
      ]
    ]

-- From the close on: `d` has the whole text in the temporary file.
unfoldable pub close_and_rename : Faults → String → String → Disk → List Disk → Replaced
close_and_rename f target text d visited = elim f.close_err [
  | some e ↦ clean_up f true d visited (failure closing (some e))
  | none ↦ elim f.rename_err [
    | some e ↦ clean_up f true d visited (failure renaming (some e))
    | none ↦
        let d' = erase f.temp_name (insert target text d) in
        clean_up f true d' (visited ++ (d' ∷ [])) (failure syncing_directory f.sync_directory_err)
  ]
]

-- A write or flush that failed.
unfoldable pub spoil : Faults → Disk → List Disk → Stage → IoError → Replaced
spoil f d visited stage e =
    let d' = insert f.temp_name f.partial d in
    clean_up f false d' (visited ++ (d' ∷ [])) (failure stage (some e))

-- The write, the flush and the sync. The text is `none` where the encoder fails.
unfoldable pub write_and_sync : Faults → String → Option String → Disk → List Disk → Replaced
write_and_sync f target payload d visited = elim payload [
  | none ↦ spoil f d visited writing (io_failure "encode state")
  | some text ↦ elim f.write_err [
    | some e ↦ spoil f d visited writing e
    | none ↦ elim f.flush_err [
      | some e ↦ spoil f d visited flushing e
      | none ↦
          let d' = insert f.temp_name text d in
          let visited' = visited ++ (d' ∷ []) in
          elim f.sync_err [
            | some e ↦ clean_up f false d' visited' (failure syncing (some e))
            | none ↦ close_and_rename f target text d' visited'
          ]
    ]
  ]
]

unfoldable pub atomic_replace : Faults → String → Option String → Disk → Replaced
atomic_replace f target payload d = elim f.create_err [
  | some e ↦ record { disk = d; visited = []; errors = failure creating (some e) }
  | none ↦
      let d' = insert f.temp_name "" d in
      elim f.chmod_err [
        | some e ↦ clean_up f false d' (d' ∷ []) (failure changing_mode (some e))
        | none ↦ write_and_sync f target payload d' (d' ∷ [])
      ]
]

pub data WriteError : Type 0 where
  nil_state : WriteError
  read_current : IoError → WriteError
  replace_backup replace_state : List (Stage × IoError) → WriteError

pub record Written : Type 0 where
  pub disk : Disk
  pub visited : List Disk
  pub error : Option WriteError

abbrev pub document_of : SavedState → StateDocument
document_of state = record { version = current_state_version; saved = state }

-- The second replacement, on the disk that the first one left.
unfoldable pub write_document : Json → Faults → String → SavedState → Disk → List Disk → Written
write_document j f path state d visited =
    let r = atomic_replace f path (j.encode (document_of state)) d in
    record {
      disk = r.disk;
      visited = visited ++ r.visited;
      error = elim r.errors [ [] ↦ none | e ∷ es ↦ some (replace_state (e ∷ es)) ];
    }

-- The backup of a current file that decodes, and then the new state. `fb` and `fs` are the faults of
-- the two replacements.
unfoldable pub back_up_and_write :
    Json → Faults → Faults → String → SavedState → String → Disk → Written
back_up_and_write j fb fs path state current d = elim (decode_state j current) [
  | err e ↦ write_document j fs path state d []
  | ok saved info ↦
      let r = atomic_replace fb (path <> state_backup_suffix) (some current) d in
      elim r.errors [
        | [] ↦ write_document j fs path state r.disk r.visited
        | e ∷ es ↦ record {
          disk = r.disk;
          visited = r.visited;
          error = some (replace_backup (e ∷ es));
        }
      ]
]

-- `read_err` is a failure of the read of the current file other than its absence.
unfoldable pub write_state_atomic_with_ops :
    Json → Option String → Faults → Faults → String → Option SavedState → Disk → Written
write_state_atomic_with_ops j read_err fb fs path state d = elim state [
  | none ↦ record { disk = d; visited = []; error = some nil_state }
  | some s ↦ elim read_err [
    | some text ↦ record { disk = d; visited = []; error = some (read_current (io_failure text)) }
    | none ↦ elim (lookup path d) [
      | none ↦ write_document j fs path s d []
      | some current ↦ back_up_and_write j fb fs path s current d
    ]
  ]
]
