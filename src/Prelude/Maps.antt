-- ===== src/Prelude/Maps.antt =====
-- Go maps keyed by strings, as association lists behind the laws of `lookup`.
use Prim.Native.Nat.{ℕ}
use Prim.Native.String.{String}
use mathlib.Core.Path.{◌≡◌, refl}
use mathlib.Core.Logic.{◌≢◌, inl, inr}
use mathlib.Core.Bool.{Bool, true, false, not, ◌&&◌, ◌||◌}
use mathlib.Core.Option.{Option, none, some}
use mathlib.Core.List.{List, [], ◌∷◌}
use native.Mathlib.Omega.{arith}
use tenderduty_nos.Prelude.Tests.{if◌then◌else◌, Bool-cases}
use tenderduty_nos.Prelude.Text.{str_eq, str_eq→eq, str_eq_refl, str_eq_sym, str_ne}

abbrev pub Map {ℓ} : Type ℓ → Type ℓ
Map V = List (String × V)

module _ {ℓ} {V : Type ℓ} where
  unfoldable pub lookup : String → Map V → Option V
  lookup k [] = none
  lookup k ((j, v) ∷ m) = if str_eq k j then some v else lookup k m

  -- `_, ok := m[k]`
  unfoldable pub has : String → Map V → Bool
  unfolding lookup
  has k m = elim (lookup k m) [ none ↦ false | some _ ↦ true ]

  -- `m[k] = v`
  unfoldable pub insert : String → V → Map V → Map V
  insert k v [] = (k, v) ∷ []
  insert k v ((j, w) ∷ m) = if str_eq k j then (k, v) ∷ m else (j, w) ∷ insert k v m

  -- `delete(m, k)`
  unfoldable pub erase : String → Map V → Map V
  erase k [] = []
  erase k ((j, w) ∷ m) = let rest = erase k m in if str_eq k j then rest else (j, w) ∷ rest

  pub lookup-insert :
      (k j : String) (v : V) (m : Map V)
      → lookup j (insert k v m) ≡ (if str_eq j k then some v else lookup j m)
  unfolding lookup insert
  lookup-insert k j v [] = refl
  lookup-insert k j v ((i, w) ∷ m) = elim (Bool-cases (str_eq k i)) [
    | inl e ↦ rw (e, str_eq→eq k i e) (ground arith)
    | inr e ↦ rw e (elim (Bool-cases (str_eq j i)) [
      | inl f ↦ rw f (rw (str_eq→eq j i f, str_eq_sym i k, e))
      | inr f ↦ rw f (lookup-insert k j v m)
    ])
  ]

  pub lookup-erase :
      (k j : String) (m : Map V) → lookup j (erase k m) ≡ (if str_eq j k then none else lookup j m)
  unfolding lookup erase
  lookup-erase k j [] = ground arith
  lookup-erase k j ((i, w) ∷ m) = elim (Bool-cases (str_eq k i)) [
    | inl e ↦ rw (e, lookup-erase k j m, str_eq→eq k i e) (ground arith)
    | inr e ↦ rw e (elim (Bool-cases (str_eq j i)) [
      | inl f ↦ rw f (rw (str_eq→eq j i f, str_eq_sym i k, e))
      | inr f ↦ rw f (lookup-erase k j m)
    ])
  ]

  pub lookup-insert_same : (k : String) (v : V) (m : Map V) → lookup k (insert k v m) ≡ some v
  lookup-insert_same k v m = rw (lookup-insert k k v m, str_eq_refl k) refl

  pub lookup-insert_other :
      (k j : String) (v : V) (m : Map V) → j ≢ k → lookup j (insert k v m) ≡ lookup j m
  lookup-insert_other k j v m ne = rw (lookup-insert k j v m, str_ne j k ne) refl

  pub lookup-erase_other : (k j : String) (m : Map V) → j ≢ k → lookup j (erase k m) ≡ lookup j m
  lookup-erase_other k j m ne = rw (lookup-erase k j m, str_ne j k ne) refl

  pub has-insert : (k j : String) (v : V) (m : Map V) → has j (insert k v m) ≡ str_eq j k || has j m
  unfolding has
  has-insert k j v m = ground (arith, lookup-insert k j v m)

  pub has-erase : (k j : String) (m : Map V) → has j (erase k m) ≡ not (str_eq j k) && has j m
  unfolding has
  has-erase k j m = ground (arith, lookup-erase k j m)

-- `m[k]` where a missing key reads as the zero time.
unfoldable pub time_at : String → Map ℕ → ℕ
time_at k m = elim (lookup k m) [ none ↦ 0 | some t ↦ t ]

pub time_at-insert :
    (k j : String) (t : ℕ) (m : Map ℕ)
    → time_at j (insert k t m) ≡ (if str_eq j k then t else time_at j m)
unfolding time_at
time_at-insert k j t m = ground (arith, lookup-insert k j t m)

pub time_at-erase :
    (k j : String) (m : Map ℕ) → time_at j (erase k m) ≡ (if str_eq j k then 0 else time_at j m)
unfolding time_at
time_at-erase k j m = ground (arith, lookup-erase k j m)

module _ {ℓ} {V : Type ℓ} where
  -- `m[k]` of a map of maps, where a missing or nil inner map reads as empty.
  unfoldable pub inner : String → Map (Map V) → Map V
  inner k m = elim (lookup k m) [ none ↦ [] | some n ↦ n ]

  pub inner-insert :
      (k j : String) (n : Map V) (m : Map (Map V))
      → inner j (insert k n m) ≡ (if str_eq j k then n else inner j m)
  unfolding inner
  inner-insert k j n m = ground (arith, lookup-insert k j n m)

  pub has-cons : (k j : String) (v : V) (m : Map V) → has k ((j, v) ∷ m) ≡ str_eq k j || has k m
  unfolding has lookup
  has-cons k j v m = ground arith

pub has-nil {ℓ} : (V : Type ℓ) (k : String) → has {V = V} k [] ≡ false
unfolding has lookup
has-nil V k = refl
