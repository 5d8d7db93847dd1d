-- ===== src/Encryption/Slices.antt =====
-- Equality and the last byte of byte slices (seer/encryption.go).
use tenderduty_nos.Prelude.{ℕ, zero, suc, true, ◌≡◌, refl, arith, [], ◌∷◌, ◌++◌, replicate}
use tenderduty_nos.Encryption.Cipher.{Bytes, bytes_equal, last_or}

pub bytes_equal_refl : (xs : Bytes) → bytes_equal xs xs ≡ true
unfolding bytes_equal
bytes_equal_refl [] = refl
bytes_equal_refl (x ∷ xs) = ground (arith, bytes_equal_refl xs)

pub bytes_equal→eq : (xs ys : Bytes) → bytes_equal xs ys ≡ true → xs ≡ ys
unfolding bytes_equal
bytes_equal→eq [] [] h = refl
bytes_equal→eq [] (y ∷ ys) h = ground (arith, h)
bytes_equal→eq (x ∷ xs) [] h = ground (arith, h)
bytes_equal→eq (x ∷ xs) (y ∷ ys) h = ground (arith, h, bytes_equal→eq xs ys)

last_or-replicate : (d n a : ℕ) → last_or d (replicate (suc n) a) ≡ a
unfolding last_or
last_or-replicate d zero a = refl
last_or-replicate d (suc n) a = last_or-replicate a n a

pub last_or-append : (d : ℕ) (xs : Bytes) (n a : ℕ) → last_or d (xs ++ replicate (suc n) a) ≡ a
unfolding last_or
last_or-append d [] n a = last_or-replicate d n a
last_or-append d (x ∷ xs) n a = last_or-append x xs n a
