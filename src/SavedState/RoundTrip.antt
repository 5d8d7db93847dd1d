-- ===== src/SavedState/RoundTrip.antt =====
-- A state that writeStateAtomic reports as written is the one that loadState returns (seer/state.go).
use tenderduty_nos.Prelude.{
  String, ◌<>◌, Bool, true, false, ◌≡◌, ◌≢◌, ◌∙◌, inl, inr, refl, arith, Option, none, some, List,
  [], ◌∷◌, Option-cases, lookup, insert, lookup-insert_same, lookup-erase_other,
}
use tenderduty_nos.SavedState.Decode.{
  Json, SavedState, IoError, decode_state, document, eof, has_no_fields, no_info, check_document,
  current_state_version,
}
use tenderduty_nos.SavedState.Load.{
  loaded, state_backup_suffix, read_state_candidate, load_state_with_reader,
}
use tenderduty_nos.SavedState.Replace.{
  Disk, Stage, Faults, Replaced, Written, document_of, atomic_replace, write_document,
  back_up_and_write, write_state_atomic_with_ops, clean_up, spoil, write_and_sync, close_and_rename,
}
use tenderduty_nos.SavedState.Recovery.{contents, IsOtherFile, Loaded-cases, List-cases}

module _ (f : Faults) (target : String) (ne : target ≢ f.temp_name) where
  clean_up-lookup :
      (closed : Bool) (d : Disk) (visited : List Disk) (errors : List (Stage × IoError))
      → lookup target (clean_up f closed d visited errors).disk ≡ lookup target d
  unfolding clean_up
  clean_up-lookup closed d visited errors =
      ground (arith, lookup-erase_other f.temp_name target d ne)

  clean_up-errors :
      (closed : Bool) (d : Disk) (visited : List Disk) (e : Stage × IoError)
      (errors : List (Stage × IoError))
      → (clean_up f closed d visited (e ∷ errors)).errors ≢ []
  unfolding clean_up
  clean_up-errors closed d visited e errors h = ground arith

  abbrev Placed : Option String → Replaced → Type 0
  Placed payload r =
      r.errors ≡ [] → (text : String) × (payload ≡ some text) × (lookup target r.disk ≡ some text)

  clean_up-Placed :
      (payload : Option String) (closed : Bool) (d : Disk) (visited : List Disk)
      (e : Stage × IoError) (errors : List (Stage × IoError))
      → Placed payload (clean_up f closed d visited (e ∷ errors))
  clean_up-Placed payload closed d visited e errors h =
      absurd (clean_up-errors closed d visited e errors h)

  spoil-Placed :
      (payload : Option String) (d : Disk) (visited : List Disk) (stage : Stage) (e : IoError)
      → Placed payload (spoil f d visited stage e)
  unfolding spoil
  spoil-Placed payload d visited stage e = clean_up-Placed payload false _ _ (stage, e) []

  close_and_rename-Placed :
      (text : String) (d : Disk) (visited : List Disk)
      → Placed (some text) (close_and_rename f target text d visited)
  unfolding close_and_rename
  close_and_rename-Placed text d visited = elim (Option-cases f.close_err) [
    | inr (x, g) ↦ rw (g, close_and_rename) (clean_up-Placed _ true d visited _ [])
    | inl g ↦
        rw (g, close_and_rename)
          (elim (Option-cases f.rename_err) [
            | inr (x, h) ↦ rw h (clean_up-Placed _ true d visited _ [])
            | inl h ↦ rw h (λ k. (
              text,
              refl,
              clean_up-lookup true _ _ _
                  ∙ lookup-erase_other f.temp_name target (insert target text d) ne
                  ∙ lookup-insert_same target text d,
            ))
          ])
  ]

  write_and_sync-Placed :
      (payload : Option String) (d : Disk) (visited : List Disk)
      → Placed payload (write_and_sync f target payload d visited)
  unfolding write_and_sync
  write_and_sync-Placed none d visited = spoil-Placed none d visited _ _
  write_and_sync-Placed (some text) d visited = elim (Option-cases f.write_err) [
    | inr (x, g) ↦ rw (g, write_and_sync) (spoil-Placed _ d visited _ _)
    | inl g ↦
        rw (g, write_and_sync)
          (elim (Option-cases f.flush_err) [
            | inr (x, h) ↦ rw h (spoil-Placed _ d visited _ _)
            | inl h ↦ rw h (elim (Option-cases f.sync_err) [
              | inr (x, k) ↦ rw k (clean_up-Placed _ false _ _ _ [])
              | inl k ↦ rw k (close_and_rename-Placed text _ _)
            ])
          ])
  ]

  -- A replacement that reports no error has put the whole payload in place.
  pub atomic_replace-lookup :
      (payload : Option String) (d : Disk) → Placed payload (atomic_replace f target payload d)
  unfolding atomic_replace
  atomic_replace-lookup payload d = elim (Option-cases f.create_err) [
    | inr (x, g) ↦ rw (g, atomic_replace) (λ h. ground arith)
    | inl g ↦
        rw (g, atomic_replace)
          (elim (Option-cases f.chmod_err) [
            | inr (x, h) ↦ rw h (clean_up-Placed payload false _ _ _ [])
            | inl h ↦ rw h (write_and_sync-Placed payload _ _)
          ])
  ]

module _ (j : Json) (fb fs : Faults) (path : String) (s : SavedState)
    (own_s : IsOtherFile fs path) where
  abbrev WritesDocument : Written → Type 0
  WritesDocument w =
      w.error ≡ none
      → (text : String) × (j.encode (document_of s) ≡ some text) × (lookup path w.disk ≡ some text)

  write_document-WritesDocument :
      (d : Disk) (visited : List Disk) → WritesDocument (write_document j fs path s d visited)
  unfolding write_document
  write_document-WritesDocument d visited h =
      atomic_replace-lookup fs path own_s.0 (j.encode (document_of s)) d (ground arith)

  back_up_and_write-WritesDocument :
      (current : String) (d : Disk) → WritesDocument (back_up_and_write j fb fs path s current d)
  unfolding back_up_and_write
  back_up_and_write-WritesDocument current d = elim (Loaded-cases (decode_state j current)) [
    | inr (x, g) ↦ rw (back_up_and_write, g) (write_document-WritesDocument d [])
    | inl (t, i, g) ↦
        rw (back_up_and_write, g)
          (elim (List-cases
            (atomic_replace fb (path <> state_backup_suffix) (some current) d).errors) [
              | inl h ↦ rw h (write_document-WritesDocument _ _)
              | inr (x, xs, h) ↦ rw h (λ k. ground arith)
            ])
  ]

  write-WritesDocument :
      (read_err : Option String) (d : Disk)
      → WritesDocument (write_state_atomic_with_ops j read_err fb fs path (some s) d)
  unfolding write_state_atomic_with_ops back_up_and_write
  write-WritesDocument read_err d = elim (Option-cases read_err) [
    | inr (x, g) ↦ rw (g, write_state_atomic_with_ops) (λ h. ground arith)
    | inl g ↦
        rw (g, write_state_atomic_with_ops)
          (elim (Option-cases (lookup path d)) [
            | inl h ↦ rw h (write_document-WritesDocument d [])
            | inr (current, h) ↦ rw h (back_up_and_write-WritesDocument current d)
          ])
  ]

-- What is written is read back: when the write of a state with a part to keep reports no error and its
-- document decodes to itself with nothing behind it, a load from the disk it left returns that state,
-- from the state file, of the current version.
pub load_state-write :
    (j : Json) (read_err : Option String) (fb fs : Faults) (path : String) (s : SavedState)
    (d : Disk)
    → IsOtherFile fs path
    → ((text : String)
        → j.encode (document_of s) ≡ some text
        → (j.is_blank text ≡ false)
          × (j.first text ≡ document (document_of s))
          × (j.trailing text ≡ eof))
    → has_no_fields s ≡ false
    → (write_state_atomic_with_ops j read_err fb fs path (some s) d).error ≡ none
    → load_state_with_reader j
        (contents (write_state_atomic_with_ops j read_err fb fs path (some s) d).disk)
        path
      ≡ loaded s (record no_info { source = path; version = current_state_version })
unfolding load_state_with_reader read_state_candidate decode_state check_document contents
load_state-write j read_err fb fs path s d own good fields done =
    let r = write-WritesDocument j fb fs path s own read_err d done in
    let g = good r.0 r.1 in ground (arith, r.2, g.0, g.1, g.2)
