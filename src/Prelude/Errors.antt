-- ===== src/Prelude/Errors.antt =====
-- Go's pair of a value and an error, where only one of the two counts.
use Prim.Native.String.{String}
use mathlib.Core.Path.{◌≡◌, refl}
use mathlib.Core.Logic.{◌⊎◌, inl, inr}
use mathlib.Core.Bool.{Bool, true, false}

pub data Reply {ℓ} (A : Type ℓ) : Type ℓ where
  got : A → Reply A
  failed : String → Reply A

infixl 5 ◌>>=◌ ◌>>◌
abbrev pub ◌>>=◌ {ℓ κ} : {A : Type ℓ} {B : Type κ} → Reply A → (A → Reply B) → Reply B
got a >>= f = f a
failed e >>= f = failed e

abbrev pub ◌>>◌ {ℓ} : {B : Type ℓ} → Reply (Unit {0}) → Reply B → Reply B
m >> k = m >>= λ _. k

-- `if test { return err }`
abbrev pub refuse_if : Bool → String → Reply (Unit {0})
refuse_if true e = failed e
refuse_if false e = got tt

pub Reply-cases {ℓ} :
    {A : Type ℓ} (r : Reply A) → ((a : A) × (r ≡ got a)) ⊎ ((e : String) × (r ≡ failed e))
Reply-cases (got a) = inl (a, refl)
Reply-cases (failed e) = inr (e, refl)
