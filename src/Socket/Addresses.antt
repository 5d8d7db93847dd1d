-- ===== src/Socket/Addresses.antt =====
-- A consensus address as text and back (seer/rpc_contract.go): encoding/hex, which is written out here,
-- under strings.ToUpper and strings.ToLower. A letter of either case counts as its digit, which is what
-- ToBytes makes of it by strings.ToLower.
use Prim.Native.String.{[], ◌∷◌}
use Prim.Native.Char.{Char, code}
use mathlib.Core.List.{List, [] as []ᴸ, ◌∷◌ as ◌∷ᴸ◌}
use tenderduty_nos.Prelude.{
  ℕ, zero, suc, ◌+◌, ◌-◌, ◌*◌, ◌/◌, ◌%◌, ◌<◌, String, Bool, true, false, ◌&&◌, if◌then◌else◌, leb,
  ◌==◌, ◌≡◌, refl, subst, ◌∙◌, arith, Option, none, some, All, inl, inr, Bool-cases,
}

unfoldable char_at : String → ℕ → Char
char_at [] n = "0"
char_at (c ∷ s) zero = c
char_at (c ∷ s) (suc n) = char_at s n

unfoldable pub upper_digit : ℕ → Char
unfolding char_at
upper_digit n = char_at "0123456789ABCDEF" n

unfoldable pub digit_value : Char → Option ℕ
digit_value c =
    let n = code c in
    if leb 48 n && leb n 57
    then some (n - 48)
    else if leb 65 n && leb n 70
    then some (n - 55)
    else if leb 97 n && leb n 102
    then some (n - 87)
    else none

-- `strings.ToUpper(hex.EncodeToString(address))`
unfoldable pub normalize_consensus_address : List ℕ → String
normalize_consensus_address []ᴸ = ""
normalize_consensus_address (b ∷ᴸ address) =
    upper_digit (b / 16) ∷ (upper_digit (b % 16) ∷ normalize_consensus_address address)

-- The bytes before the first pair that is not hexadecimal, or before an odd digit.
unfoldable pub to_bytes : String → List ℕ
to_bytes [] = []ᴸ
to_bytes (c ∷ []) = []ᴸ
to_bytes (c ∷ (d ∷ s)) = elim (digit_value c) [
  | none ↦ []ᴸ
  | some high ↦ elim (digit_value d) [ none ↦ []ᴸ | some low ↦ (16 * high + low) ∷ᴸ to_bytes s ]
]

all_below : ℕ → (ℕ → Bool) → Bool
all_below zero test = true
all_below (suc k) test = test k && all_below k test

all_below-lt : (k n : ℕ) (test : ℕ → Bool) → all_below k test ≡ true → n < k → test n ≡ true
unfolding all_below
all_below-lt zero n test h lt = absurd (omega (arith, lt))
all_below-lt (suc k) n test h lt = elim (Bool-cases (n == k)) [
  | inl e ↦
      let same : k ≡ n = ground (arith, e) in subst (λ m. test m ≡ true) same (ground (arith, h))
  | inr e ↦ all_below-lt k n test (ground (arith, h)) (ground (arith, lt, e))
]

unfoldable reads_back : ℕ → Bool
unfolding digit_value upper_digit char_at
reads_back n = elim (digit_value (upper_digit n)) [ none ↦ false | some m ↦ m == n ]

all_digits : all_below 16 reads_back ≡ true
unfolding all_below reads_back digit_value upper_digit char_at
all_digits = refl

digit_value-upper_digit : (n : ℕ) → n < 16 → digit_value (upper_digit n) ≡ some n
unfolding reads_back
digit_value-upper_digit n lt = ground (arith, all_below-lt 16 n reads_back all_digits lt)

to_bytes-pair :
    (c d : Char) (s : String) (high low : ℕ)
    → digit_value c ≡ some high
    → digit_value d ≡ some low
    → to_bytes (c ∷ (d ∷ s)) ≡ (16 * high + low) ∷ᴸ to_bytes s
unfolding to_bytes
to_bytes-pair c d s high low e f = rw (to_bytes, e, f) refl

-- The text of an address reads back as the address.
pub to_bytes-normalize_consensus_address :
    (address : List ℕ)
    → All (λ b. b < 256) address
    → to_bytes (normalize_consensus_address address) ≡ address
unfolding to_bytes normalize_consensus_address
to_bytes-normalize_consensus_address []ᴸ h = refl
to_bytes-normalize_consensus_address (b ∷ᴸ address) (small, rest) =
    let whole : 16 * (b / 16) + b % 16 ≡ b = omega arith in
    to_bytes-pair _ _ _ _ _ (digit_value-upper_digit (b / 16) (omega (arith, small)))
      (digit_value-upper_digit (b % 16) (omega arith))
    ∙ (λ i. whole i ∷ᴸ to_bytes-normalize_consensus_address address rest i)
