-- ===== src/Examples/State.antt =====
-- The state file on concrete disks.
use tenderduty_nos.Prelude.{
  String, Bool, true, false, if◌then◌else◌, ◌<>◌, ◌≡◌, refl, ap, subst, arith, Option, none, some,
  [], ◌∷◌, All, lookup, time_at, str_eq, ne_of_str_eq, erase, insert, pos,
}
use tenderduty_nos.AlarmCache.{AlarmCache, sent_map, tg, new_alarm_cache}
use tenderduty_nos.SavedState.{
  Json, SavedAlarms, SavedState, has_no_fields, empty_saved_state, syntax, document, eof,
  io_failure, no_info, current_state_version, loaded, load_state_with_reader, Disk, Faults,
  document_of, atomic_replace, write_state_atomic_with_ops, write_document, back_up_and_write,
  write_and_sync, close_and_rename, clean_up, decode_state, check_document, read_state_candidate,
  restore_saved_state, snapshot_saved_state, is_stale,
}
use tenderduty_nos.SavedState.Recovery.{
  contents, decodes, loads, IsOtherFile, RoundTrips, snapshot-has_fields,
  write_state_atomic_with_ops-loads,
}
use tenderduty_nos.SavedState.Atomicity.{IsOldOrNew, atomic_replace-IsOldOrNew}
use tenderduty_nos.SavedState.RoundTrip.{load_state-write}
use tenderduty_nos.SavedState.Restoration.{restart-sent_map}
use tenderduty_nos.Examples.Fixtures.{noon, settings}

abbrev some_state : SavedState
some_state = record {
  alarms = none;
  blocks = some (("osmosis", pos 3 ∷ []) ∷ []);
  nodes_down = none;
}

-- A codec for one document.
abbrev one_document : Json
one_document = record {
  is_blank = λ t. str_eq t "";
  first = λ t. if str_eq t "S" then document (document_of some_state) else syntax;
  trailing = λ t. eof;
  encode = λ d. some "S";
}

abbrev no_faults : String → Faults
no_faults temp_name = record {
  temp_name = temp_name;
  create_err = none;
  chmod_err = none;
  write_err = none;
  flush_err = none;
  partial = "";
  sync_err = none;
  close_err = none;
  rename_err = none;
  sync_directory_err = none;
  remove_err = none;
}

abbrev sync_fails : Faults
sync_fails = record (no_faults "/t") {
  sync_err = some (io_failure "disk full");
  remove_err = some (io_failure "busy");
}

abbrev old_disk : Disk
old_disk = ("/s", "S") ∷ []

abbrev state_path : String
state_path = "/s"

temp_is_other :
    (name : String)
    → str_eq state_path name ≡ false
    → str_eq (state_path <> ".bak") name ≡ false
    → IsOtherFile (no_faults name) state_path
temp_is_other name h k =
    (ne_of_str_eq state_path name h, ne_of_str_eq (state_path <> ".bak") name k)

own_t : IsOtherFile (no_faults "/t") state_path
unfolding str_eq
own_t = temp_is_other "/t" refl refl

atomic_replace-IsOldOrNew_example :
    let r = atomic_replace sync_fails "/s" (some "new") old_disk in
    IsOldOrNew sync_fails "/s" (some "new") old_disk r.disk
    × All (IsOldOrNew sync_fails "/s" (some "new") old_disk) r.visited
atomic_replace-IsOldOrNew_example =
    atomic_replace-IsOldOrNew sync_fails "/s" (some "new") old_disk own_t.0

own_u : IsOtherFile (no_faults "/u") state_path
unfolding str_eq
own_u = temp_is_other "/u" refl refl

-- A codec that writes for each field whether it is there.
abbrev marks : Bool → Bool → Bool → String
marks true true true = "+++"
marks true true false = "++-"
marks true false true = "+-+"
marks true false false = "+--"
marks false true true = "-++"
marks false true false = "-+-"
marks false false true = "--+"
marks false false false = "---"

abbrev no_alarms : SavedAlarms
no_alarms = record {
  sent_pd_alarms = none;
  sent_tg_alarms = none;
  sent_di_alarms = none;
  sent_slk_alarms = none;
  all_alarms = none;
}

abbrev with_fields : Bool → Bool → Bool → SavedState
with_fields a b n = record {
  alarms = if a then some no_alarms else none;
  blocks = if b then some [] else none;
  nodes_down = if n then some [] else none;
}

unfoldable marked : String → SavedState
marked text =
    if str_eq text "+++"
    then with_fields true true true
    else if str_eq text "++-"
    then with_fields true true false
    else if str_eq text "+-+"
    then with_fields true false true
    else if str_eq text "+--"
    then with_fields true false false
    else if str_eq text "-++"
    then with_fields false true true
    else if str_eq text "-+-"
    then with_fields false true false
    else if str_eq text "--+"
    then with_fields false false true
    else with_fields false false false

abbrev given {ℓ} : {A : Type ℓ} → Option A → Bool
given none = false
given (some a) = true

abbrev marks_of : SavedState → String
marks_of s = marks (given s.alarms) (given s.blocks) (given s.nodes_down)

abbrev mark_codec : Json
mark_codec = record {
  is_blank = λ t. str_eq t "";
  first = λ t. document (document_of (marked t));
  trailing = λ t. eof;
  encode = λ d. some (marks_of d.saved);
}

marks-marked :
    (a b n : Bool) → (str_eq (marks a b n) "" ≡ false) × (marked (marks a b n) ≡ with_fields a b n)
unfolding marked str_eq
marks-marked true true true = (refl, refl)
marks-marked true true false = (refl, refl)
marks-marked true false true = (refl, refl)
marks-marked true false false = (refl, refl)
marks-marked false true true = (refl, refl)
marks-marked false true false = (refl, refl)
marks-marked false false true = (refl, refl)
marks-marked false false false = (refl, refl)

marks-RoundTrips : (s : SavedState) → RoundTrips mark_codec s (marks_of s)
unfolding RoundTrips
marks-RoundTrips s =
    let (full, same) = marks-marked (given s.alarms) (given s.blocks) (given s.nodes_down) in
    (
      full,
      refl,
      with_fields (given s.alarms) (given s.blocks) (given s.nodes_down),
      ap (λ t. document (document_of t)) same,
      ground arith,
    )

mark_codec-RoundTrips :
    (s : SavedState) (text : String)
    → mark_codec.encode (document_of s) ≡ some text
    → RoundTrips mark_codec s text
mark_codec-RoundTrips s text e =
    subst (RoundTrips mark_codec s) (let same : marks_of s ≡ text = ground (arith, e) in same)
      (marks-RoundTrips s)

-- A state without fields is encoded, and what is encoded is refused.
empty_is_refused : decodes mark_codec (marks_of empty_saved_state) ≡ false
unfolding decodes decode_state check_document marked str_eq
empty_is_refused = refl

abbrev marked_disk : Disk
marked_disk = ("/s", "-+-") ∷ []

marked_disk-loads : loads mark_codec state_path marked_disk ≡ true
unfolding loads load_state_with_reader read_state_candidate contents decode_state check_document
    lookup str_eq marked
marked_disk-loads = refl

abbrev warm_cache : AlarmCache
warm_cache = record new_alarm_cache { sent_tg_alarms = ("node down", noon) ∷ ("old", 5) ∷ [] }

abbrev warm_state : SavedState
warm_state = snapshot_saved_state (settings, warm_cache)

warm_state-has_fields : (s : SavedState) → some warm_state ≡ some s → has_no_fields s ≡ false
warm_state-has_fields s e =
    subst (λ t. has_no_fields t ≡ false) (let same : warm_state ≡ s = ground (arith, e) in same)
      (snapshot-has_fields (settings, warm_cache))

write_state_atomic_with_ops-loads_example :
    let w =
      write_state_atomic_with_ops mark_codec none
        (no_faults "/u")
        sync_fails
        state_path
        (some warm_state)
        marked_disk in
    (loads mark_codec state_path w.disk ≡ true)
    × All (λ c. loads mark_codec state_path c ≡ true) w.visited
write_state_atomic_with_ops-loads_example =
    write_state_atomic_with_ops-loads mark_codec none (no_faults "/u") sync_fails state_path
      (some warm_state) marked_disk own_u own_t mark_codec-RoundTrips warm_state-has_fields
      marked_disk-loads

written_without_error :
    (write_state_atomic_with_ops one_document none
      (no_faults "/u")
      (no_faults "/t")
      state_path
      (some some_state)
      old_disk).error
    ≡ none
unfolding write_state_atomic_with_ops back_up_and_write write_document atomic_replace write_and_sync
    close_and_rename clean_up decode_state check_document lookup insert erase str_eq
written_without_error = refl

one_document-is_faithful :
    (text : String)
    → one_document.encode (document_of some_state) ≡ some text
    → (one_document.is_blank text ≡ false)
      × (one_document.first text ≡ document (document_of some_state))
      × (one_document.trailing text ≡ eof)
unfolding str_eq
one_document-is_faithful text e =
    subst
      (λ o. elim o [
        | none ↦ Unit
        | some t ↦
            (one_document.is_blank t ≡ false)
            × (one_document.first t ≡ document (document_of some_state))
            × (one_document.trailing t ≡ eof)
      ])
      e (refl, refl, refl)

load_state-write_example :
    load_state_with_reader one_document
      (contents
        (write_state_atomic_with_ops one_document none
          (no_faults "/u")
          (no_faults "/t")
          state_path
          (some some_state)
          old_disk).disk)
      state_path
    ≡ loaded some_state (record no_info { source = state_path; version = current_state_version })
load_state-write_example =
    load_state-write one_document none (no_faults "/u") (no_faults "/t") state_path some_state
      old_disk own_t one_document-is_faithful refl written_without_error

restart-sent_map_example :
    lookup "node down" (
      sent_map
        (restore_saved_state noon
          (some (snapshot_saved_state (settings, warm_cache)))
          (settings, new_alarm_cache)).1
        tg)
    ≡ (if is_stale noon (time_at "node down" (sent_map warm_cache tg))
        then none
        else lookup "node down" (sent_map warm_cache tg))
restart-sent_map_example =
    restart-sent_map noon (settings, warm_cache) (settings, new_alarm_cache) tg "node down"
