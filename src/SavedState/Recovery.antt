-- ===== src/SavedState/Recovery.antt =====
-- What loadState finds after writeStateAtomic (seer/state.go) was cut off or failed anywhere.
use tenderduty_nos.Prelude.{
  String, ◌<>◌, Bool, true, false, ◌≡◌, ◌≢◌, ◌∙◌, ◌⊎◌, inl, inr, refl, arith, Option, none, some,
  List, [], ◌∷◌, Option-cases, All, lookup, insert, erase, lookup-insert_same, lookup-insert_other,
  lookup-erase_other, longer_text,
}
use tenderduty_nos.SavedState.Decode.{
  Json, Loaded, ok, err, SavedState, has_no_fields, document, eof, check_document, not_exist,
  decode_state, StateLoadInfo, StateError,
}
use tenderduty_nos.SavedState.Load.{
  Read, content, failed, loaded, refused, state_backup_suffix, read_state_candidate,
  load_state_with_reader,
}
use tenderduty_nos.SavedState.Replace.{
  Disk, Faults, Written, document_of, atomic_replace, write_document, back_up_and_write,
  write_state_atomic_with_ops,
}
use tenderduty_nos.Config.{Config}
use tenderduty_nos.AlarmCache.{AlarmCache}
use tenderduty_nos.SavedState.Restore.{snapshot_saved_state}
use tenderduty_nos.SavedState.Atomicity.{Survives, atomic_replace-Holds, All-append}

pub Loaded-cases :
    (l : Loaded)
    → ((s : SavedState) × (i : StateLoadInfo) × (l ≡ ok s i)) ⊎ ((e : StateError) × (l ≡ err e))
Loaded-cases (ok s i) = inl (s, i, refl)
Loaded-cases (err e) = inr (e, refl)

pub List-cases {ℓ} :
    {A : Type ℓ} (xs : List A) → (xs ≡ []) ⊎ ((x : A) × (ys : List A) × (xs ≡ x ∷ ys))
List-cases [] = inl refl
List-cases (x ∷ ys) = inr (x, ys, refl)

-- A disk read without faults.
unfoldable pub contents : Disk → String → Read
contents d path = elim (lookup path d) [ none ↦ failed not_exist | some text ↦ content text ]

unfoldable pub decodes : Json → String → Bool
unfolding decode_state
decodes j text = elim (decode_state j text) [ ok s i ↦ true | err e ↦ false ]

-- Whether the process starts from the disk.
unfoldable pub loads : Json → String → Disk → Bool
unfolding load_state_with_reader
loads j path d = elim (load_state_with_reader j (contents d) path) [
  | loaded s i ↦ true
  | refused e ↦ false
]

path≢backup : (path : String) → path ≢ path <> state_backup_suffix
path≢backup path = longer_text path state_backup_suffix (omega arith)

loads-same :
    (j : Json) (path : String) (d e : Disk)
    → lookup path e ≡ lookup path d
    → lookup (path <> state_backup_suffix) e ≡ lookup (path <> state_backup_suffix) d
    → loads j path e ≡ loads j path d
unfolding loads load_state_with_reader read_state_candidate contents
loads-same j path d e h k = ground (arith, h, k)

loads-decodes :
    (j : Json) (path text : String) (d : Disk)
    → lookup path d ≡ some text
    → decodes j text ≡ true
    → loads j path d ≡ true
unfolding loads load_state_with_reader read_state_candidate contents decodes
loads-decodes j path text d h k = ground arith

-- The temporary file is neither the state file nor its backup.
abbrev pub IsOtherFile : Faults → String → Type 0
IsOtherFile f path = (path ≢ f.temp_name) × (path <> state_backup_suffix ≢ f.temp_name)

-- A replacement of the state file by a text that decodes keeps the disk loadable.
loads-Survives :
    (j : Json) (f : Faults) (path : String) (payload : Option String)
    → IsOtherFile f path
    → ((text : String) → payload ≡ some text → decodes j text ≡ true)
    → Survives (λ d. loads j path d ≡ true) f path payload
loads-Survives j f path payload ne good = record {
  temp_written = λ d text q.
      loads-same j path d (insert f.temp_name text d)
        (lookup-insert_other f.temp_name path text d ne.0)
        (lookup-insert_other f.temp_name (path <> state_backup_suffix) text d ne.1)
      ∙ q;
  temp_removed = λ d q.
      loads-same j path d (erase f.temp_name d) (lookup-erase_other f.temp_name path d ne.0)
        (lookup-erase_other f.temp_name (path <> state_backup_suffix) d ne.1)
      ∙ q;
  renamed = λ d text e q.
      loads-decodes j path text (erase f.temp_name (insert path text d))
        (lookup-erase_other f.temp_name path (insert path text d) ne.0
          ∙ lookup-insert_same path text d)
        (good text e);
}

-- A replacement of the backup leaves the state file alone.
lookup-Survives :
    (f : Faults) (path current : String) (payload : Option String)
    → IsOtherFile f path
    → Survives (λ d. lookup path d ≡ some current) f (path <> state_backup_suffix) payload
lookup-Survives f path current payload ne = record {
  temp_written = λ d text q. lookup-insert_other f.temp_name path text d ne.0 ∙ q;
  temp_removed = λ d q. lookup-erase_other f.temp_name path d ne.0 ∙ q;
  renamed = λ d text e q.
      lookup-erase_other f.temp_name path (insert (path <> state_backup_suffix) text d) ne.0
      ∙ lookup-insert_other (path <> state_backup_suffix) path text d (path≢backup path)
      ∙ q;
}

All-map {ℓ κ ν} :
    {A : Type ℓ} (P : A → Type κ) (Q : A → Type ν) (xs : List A)
    → ((x : A) → P x → Q x)
    → All P xs
    → All Q xs
All-map P Q [] f h = tt
All-map P Q (x ∷ xs) f h = (f x h.0, All-map P Q xs f h.1)

module _ (j : Json) (fb fs : Faults) (path : String) (s : SavedState) (own_b : IsOtherFile fb path)
    (own_s : IsOtherFile fs path)
    (good : (text : String) → j.encode (document_of s) ≡ some text → decodes j text ≡ true) where
  abbrev AllLoad : Written → Type 0
  AllLoad w = (loads j path w.disk ≡ true) × All (λ d. loads j path d ≡ true) w.visited

  write_document-AllLoad :
      (d : Disk) (visited : List Disk)
      → loads j path d ≡ true
      → All (λ e. loads j path e ≡ true) visited
      → AllLoad (write_document j fs path s d visited)
  unfolding write_document
  write_document-AllLoad d visited q qs =
      let r =
        atomic_replace-Holds (λ e. loads j path e ≡ true) fs path (j.encode (document_of s))
          (loads-Survives j fs path (j.encode (document_of s)) own_s good) d q in
      (r.0, All-append (λ e. loads j path e ≡ true) visited _ qs r.1)

  back_up_and_write-AllLoad :
      (current : String) (d : Disk)
      → lookup path d ≡ some current
      → loads j path d ≡ true
      → AllLoad (back_up_and_write j fb fs path s current d)
  unfolding back_up_and_write decodes
  back_up_and_write-AllLoad current d e q = elim (Loaded-cases (decode_state j current)) [
    | inr (x, g) ↦ rw (back_up_and_write, g) (write_document-AllLoad d [] q tt)
    | inl (t, i, g) ↦
        let r =
          atomic_replace-Holds (λ c. lookup path c ≡ some current) fb (path <> state_backup_suffix)
            (some current) (lookup-Survives fb path current (some current) own_b) d e in
        let sound : (c : Disk) → lookup path c ≡ some current → loads j path c ≡ true =
          λ c h. loads-decodes j path current c h (rw (decodes, g) refl) in
        let rest =
          All-map (λ c. lookup path c ≡ some current) (λ c. loads j path c ≡ true) _ sound r.1 in
        rw (back_up_and_write, g)
          (elim (List-cases
            (atomic_replace fb (path <> state_backup_suffix) (some current) d).errors) [
              | inl h ↦ rw h (write_document-AllLoad _ _ (sound _ r.0) rest)
              | inr (x, xs, h) ↦ rw h (sound _ r.0, rest)
            ])
  ]

  write-AllLoad :
      (read_err : Option String) (d : Disk)
      → loads j path d ≡ true
      → AllLoad (write_state_atomic_with_ops j read_err fb fs path (some s) d)
  unfolding write_state_atomic_with_ops
  write-AllLoad read_err d q = elim (Option-cases read_err) [
    | inr (x, g) ↦ rw (g, write_state_atomic_with_ops) (q, tt)
    | inl g ↦
        rw (g, write_state_atomic_with_ops)
          (elim (Option-cases (lookup path d)) [
            | inl h ↦ rw h (write_document-AllLoad d [] q tt)
            | inr (current, h) ↦ rw h (back_up_and_write-AllLoad current d h q)
          ])
  ]

-- encoding/json on the documents that are written: the text is one document, of the same version, in
-- which no field is nil but where it was.
unfoldable pub RoundTrips : Json → SavedState → String → Type 0
RoundTrips j s text =
    (j.is_blank text ≡ false)
    × (j.trailing text ≡ eof)
    × (saved : SavedState) × (j.first text ≡ document (document_of saved))
    × (has_no_fields saved ≡ has_no_fields s)

-- A state with a field is written as a text that decodes.
RoundTrips-decodes :
    (j : Json) (s : SavedState) (text : String)
    → RoundTrips j s text
    → has_no_fields s ≡ false
    → decodes j text ≡ true
unfolding RoundTrips decodes decode_state check_document
RoundTrips-decodes j s text (full, last, saved, first, fields) kept =
    ground (arith, full, last, first, fields, kept)

-- What the process saves has its fields.
pub snapshot-has_fields : (v : Config × AlarmCache) → has_no_fields (snapshot_saved_state v) ≡ false
unfolding snapshot_saved_state
snapshot-has_fields v = refl

-- No write of a state with a field loses the state file: from a disk that loads, every disk that a crash,
-- a failed operation or the end of the write can leave loads too. The two temporary files must be
-- neither the state file nor its backup, and the encoder must write one document, with the version and
-- the fields that are not nil.
pub write_state_atomic_with_ops-loads :
    (j : Json) (read_err : Option String) (fb fs : Faults) (path : String)
    (state : Option SavedState) (d : Disk)
    → IsOtherFile fb path
    → IsOtherFile fs path
    → ((s : SavedState) (text : String)
        → j.encode (document_of s) ≡ some text
        → RoundTrips j s text)
    → ((s : SavedState) → state ≡ some s → has_no_fields s ≡ false)
    → loads j path d ≡ true
    → let w = write_state_atomic_with_ops j read_err fb fs path state d in
      (loads j path w.disk ≡ true) × All (λ c. loads j path c ≡ true) w.visited
unfolding write_state_atomic_with_ops
write_state_atomic_with_ops-loads j read_err fb fs path none d own_b own_s good kept q = (q, tt)
write_state_atomic_with_ops-loads j read_err fb fs path (some s) d own_b own_s good kept q =
    write-AllLoad j fb fs path s own_b own_s
      (λ text e. RoundTrips-decodes j s text (good s text e) (kept s refl)) read_err d q
