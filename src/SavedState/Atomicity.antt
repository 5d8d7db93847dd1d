-- ===== src/SavedState/Atomicity.antt =====
-- What atomicReplace (seer/state.go) may leave on the disk, at any moment and under any faults.
use tenderduty_nos.Prelude.{
  String, Bool, true, false, ◌≡◌, ◌≢◌, ◌⊎◌, inl, inr, refl, Option, some, List, [], ◌∷◌, ◌++◌,
  Option-cases, All, lookup, insert, erase, lookup-insert_same, lookup-insert_other,
  lookup-erase_other,
}
use tenderduty_nos.SavedState.Decode.{IoError}
use tenderduty_nos.SavedState.Replace.{
  Disk, Stage, Faults, Replaced, clean_up, spoil, close_and_rename, write_and_sync, atomic_replace,
}

pub All-append {ℓ κ} :
    {A : Type ℓ} (P : A → Type κ) (xs ys : List A) → All P xs → All P ys → All P (xs ++ ys)
All-append P [] ys hx hy = hy
All-append P (x ∷ xs) ys hx hy = (hx.0, All-append P xs ys hx.1 hy)

-- A property of the disk that survives the changes that atomicReplace makes.
pub record Survives (Q : Disk → Type 0) (f : Faults) (target : String) (payload : Option String)
    : Type 0 where
  pub temp_written : (d : Disk) (text : String) → Q d → Q (insert f.temp_name text d)
  pub temp_removed : (d : Disk) → Q d → Q (erase f.temp_name d)
  pub renamed :
      (d : Disk) (text : String)
      → payload ≡ some text
      → Q d
      → Q (erase f.temp_name (insert target text d))

module _ (Q : Disk → Type 0) (f : Faults) (target : String) (payload : Option String)
    (sv : Survives Q f target payload) where
  abbrev Holds : Replaced → Type 0
  Holds r = Q r.disk × All Q r.visited

  clean_up-Holds :
      (closed : Bool) (d : Disk) (visited : List Disk) (errors : List (Stage × IoError))
      → Q d
      → All Q visited
      → Holds (clean_up f closed d visited errors)
  unfolding clean_up
  clean_up-Holds closed d visited errors q qs = elim (Option-cases (lookup f.temp_name d)) [
    | inl e ↦ rw (e, clean_up) (q, qs)
    | inr (text, e) ↦
        rw (e, clean_up)
          (elim (Option-cases f.remove_err) [
            | inl g ↦
                rw g (sv.temp_removed d q, All-append Q visited _ qs (sv.temp_removed d q, tt))
            | inr (x, g) ↦ rw g (q, qs)
          ])
  ]

  spoil-Holds :
      (d : Disk) (visited : List Disk) (stage : Stage) (e : IoError)
      → Q d
      → All Q visited
      → Holds (spoil f d visited stage e)
  unfolding spoil
  spoil-Holds d visited stage e q qs =
      let q' = sv.temp_written d f.partial q in
      clean_up-Holds false _ _ _ q' (All-append Q visited _ qs (q', tt))

  close_and_rename-Holds :
      (text : String) (d : Disk) (visited : List Disk)
      → payload ≡ some text
      → Q d
      → All Q visited
      → Holds (close_and_rename f target text d visited)
  unfolding close_and_rename
  close_and_rename-Holds text d visited p q qs = elim (Option-cases f.close_err) [
    | inr (x, g) ↦ rw (g, close_and_rename) (clean_up-Holds true d visited _ q qs)
    | inl g ↦
        rw (g, close_and_rename)
          (elim (Option-cases f.rename_err) [
            | inr (x, h) ↦ rw h (clean_up-Holds true d visited _ q qs)
            | inl h ↦
                let q' = sv.renamed d text p q in
                rw h (clean_up-Holds true _ _ _ q' (All-append Q visited _ qs (q', tt)))
          ])
  ]

  write_and_sync-Holds :
      (d : Disk) (visited : List Disk)
      → Q d
      → All Q visited
      → Holds (write_and_sync f target payload d visited)
  unfolding write_and_sync
  write_and_sync-Holds d visited q qs = elim (Option-cases payload) [
    | inl p ↦ rw (p, write_and_sync) (spoil-Holds d visited _ _ q qs)
    | inr (text, p) ↦
        rw (p, write_and_sync)
          (elim (Option-cases f.write_err) [
            | inr (x, g) ↦ rw g (spoil-Holds d visited _ _ q qs)
            | inl g ↦ rw g (elim (Option-cases f.flush_err) [
              | inr (x, h) ↦ rw h (spoil-Holds d visited _ _ q qs)
              | inl h ↦
                  let q' = sv.temp_written d text q in
                  let qs' = All-append Q visited _ qs (q', tt) in
                  rw h (elim (Option-cases f.sync_err) [
                    | inr (x, k) ↦ rw k (clean_up-Holds false _ _ _ q' qs')
                    | inl k ↦ rw k (close_and_rename-Holds text _ _ p q' qs')
                  ])
            ])
          ])
  ]

  -- Such a property holds of the disk after every change, and at the end, whatever fails.
  pub atomic_replace-Holds : (d : Disk) → Q d → Holds (atomic_replace f target payload d)
  unfolding atomic_replace
  atomic_replace-Holds d q = elim (Option-cases f.create_err) [
    | inr (x, g) ↦ rw (g, atomic_replace) (q, tt)
    | inl g ↦
        let q' = sv.temp_written d "" q in
        rw (g, atomic_replace)
          (elim (Option-cases f.chmod_err) [
            | inr (x, h) ↦ rw h (clean_up-Holds false _ _ _ q' (q', tt))
            | inl h ↦ rw h (write_and_sync-Holds _ _ q' (q', tt))
          ])
  ]

-- The target is as it was or holds the whole payload, and every other file is as it was.
abbrev pub IsOldOrNew : Faults → String → Option String → Disk → Disk → Type 0
IsOldOrNew f target payload d₀ d =
    ((lookup target d ≡ lookup target d₀)
      ⊎ ((text : String) × (payload ≡ some text) × (lookup target d ≡ some text)))
    × ((p : String) → p ≢ target → p ≢ f.temp_name → lookup p d ≡ lookup p d₀)

IsOldOrNew-Survives :
    (f : Faults) (target : String) (payload : Option String) (d₀ : Disk)
    → target ≢ f.temp_name
    → Survives (IsOldOrNew f target payload d₀) f target payload
IsOldOrNew-Survives f target payload d₀ ne = record {
  temp_written = λ d text q. (
    rw (lookup-insert_other f.temp_name target text d ne) q.0,
    λ p a b. rw (lookup-insert_other f.temp_name p text d b) (q.1 p a b),
  );
  temp_removed = λ d q. (
    rw (lookup-erase_other f.temp_name target d ne) q.0,
    λ p a b. rw (lookup-erase_other f.temp_name p d b) (q.1 p a b),
  );
  renamed = λ d text e q. (
    rw
        (
          lookup-erase_other f.temp_name target (insert target text d) ne,
          lookup-insert_same target text d,
        )
        (inr (text, e, refl)),
    λ p a b.
        rw
          (
            lookup-erase_other f.temp_name p (insert target text d) b,
            lookup-insert_other target p text d a,
          )
          (q.1 p a b),
  );
}

-- A replacement is atomic: whatever operation fails, and at whatever moment it is cut off, the target
-- holds its old content or the whole new one, and no other file but the temporary one has changed.
pub atomic_replace-IsOldOrNew :
    (f : Faults) (target : String) (payload : Option String) (d : Disk)
    → target ≢ f.temp_name
    → let r = atomic_replace f target payload d in
      IsOldOrNew f target payload d r.disk × All (IsOldOrNew f target payload d) r.visited
atomic_replace-IsOldOrNew f target payload d ne =
    atomic_replace-Holds (IsOldOrNew f target payload d) f target payload
      (IsOldOrNew-Survives f target payload d ne) d (inl refl, λ p a b. refl)
