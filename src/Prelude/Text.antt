-- ===== src/Prelude/Text.antt =====
-- Equality of texts as a test that stays shut: proofs use its laws.
use Prim.Native.String.{String, [], ◌∷◌}
use text.Mathlib.Text.{◌==◌, find?}
use text.Mathlib.TextEquality.{eq_iff}
use text.Mathlib.TextPositions.{eq_refl, len-append}
use Prim.Native.String.{◌++◌, len}
use Prim.Native.Nat.{ℕ, zero, suc, ◌-◌, ◌<◌}
use native.Mathlib.Omega.{arith}
use mathlib.Core.Path.{◌≡◌, sym, ap, ◌∙◌}
use mathlib.Core.Logic.{◌≢◌, inl, inr}
use mathlib.Core.Bool.{Bool, true, false, false≢true}
use mathlib.Core.Option.{none, some}
use tenderduty_nos.Prelude.Tests.{Bool-cases}

unfoldable pub str_eq : String → String → Bool
str_eq s t = s == t

-- `strings.Contains`
unfoldable pub contains : String → String → Bool
contains s t = elim (find? s t) [ none ↦ false | some _ ↦ true ]

pub str_eq→eq : (s t : String) → str_eq s t ≡ true → s ≡ t
unfolding str_eq
str_eq→eq s t h = (eq_iff s t).0 h

pub str_eq_refl : (s : String) → str_eq s s ≡ true
unfolding str_eq
str_eq_refl s = eq_refl s

pub str_ne : (s t : String) → s ≢ t → str_eq s t ≡ false
str_ne s t h = elim (Bool-cases (str_eq s t)) [ inl e ↦ absurd (h (str_eq→eq s t e)) | inr e ↦ e ]

pub str_eq_sym : (s t : String) → str_eq s t ≡ str_eq t s
str_eq_sym s t = elim (Bool-cases (str_eq s t)) [
  | inl e ↦ ap (λ u. str_eq s u) (sym (str_eq→eq s t e)) ∙ ap (λ u. str_eq u s) (str_eq→eq s t e)
  | inr e ↦ e ∙ sym (str_ne t s (λ p. false≢true (sym e ∙ ap (λ u. str_eq s u) p ∙ str_eq_refl s)))
]

pub longer_text : (s t : String) → 0 < len t → s ≢ s ++ t
longer_text s t h e = let n = len-append s t in let m = ap len e in omega arith

pub ne_of_str_eq : (s t : String) → str_eq s t ≡ false → s ≢ t
ne_of_str_eq s t h e = false≢true (sym h ∙ ap (λ u. str_eq s u) (sym e) ∙ str_eq_refl s)

runes : String → ℕ
runes [] = 0
runes (c ∷ s) = suc (runes s)

spaces : ℕ → String
spaces zero = ""
spaces (suc n) = " " ++ spaces n

-- `%-12s` of fmt.Sprintf, at any width
unfoldable pub pad_right : ℕ → String → String
unfolding runes spaces
pad_right width s = s ++ spaces (width - runes s)

-- `%20s`
unfoldable pub pad_left : ℕ → String → String
unfolding runes spaces
pad_left width s = spaces (width - runes s) ++ s
