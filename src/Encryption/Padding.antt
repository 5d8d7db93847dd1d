-- ===== src/Encryption/Padding.antt =====
-- The padding of seer/encryption.go.
use tenderduty_nos.Prelude.{
  ℕ, suc, ◌+◌, ◌-◌, ◌%◌, ◌≤◌, ◌≡◌, refl, ◌∙◌, ap, arith, ◌++◌, length, replicate, length-append,
  length-replicate, take-append, drop-append, got,
}
use tenderduty_nos.Encryption.Cipher.{Bytes, block_size, pad_length, pad, unpad}
use tenderduty_nos.Encryption.Slices.{bytes_equal_refl, last_or-append}

-- A padding is a block at most, and never empty.
pub pad_length_bounds : (n : ℕ) → (1 ≤ pad_length n) × (pad_length n ≤ block_size)
unfolding pad_length
pad_length_bounds n = omega arith

pad-eq-append :
    (plain : Bytes)
    → pad plain ≡ plain ++ replicate (pad_length (length plain)) (pad_length (length plain))
unfolding pad
pad-eq-append plain = ground (arith, pad_length_bounds (length plain))

pub length-pad : (plain : Bytes) → length (pad plain) ≡ length plain + pad_length (length plain)
length-pad plain =
    let n = pad_length (length plain) in
    rw (pad-eq-append plain, length-append plain (replicate n n), length-replicate n n) refl

pub length-pad-mod : (plain : Bytes) → length (pad plain) % block_size ≡ 0
unfolding pad_length
length-pad-mod plain = rw (length-pad plain) (omega arith)

unpad-append :
    (plain : Bytes) (m : ℕ)
    → suc m ≤ block_size
    → unpad (plain ++ replicate (suc m) (suc m)) ≡ got plain
unfolding unpad
unpad-append plain m le =
    let xs = plain ++ replicate (suc m) (suc m) in
    let l : length xs ≡ length plain + suc m =
      length-append plain (replicate (suc m) (suc m))
      ∙ ap (λ k. length plain + k) (length-replicate (suc m) (suc m)) in
    let k : length xs - suc m ≡ length plain = omega (arith, l) in
    let rest = replicate (suc m) (suc m) in
    rw
      (
        unpad,
        last_or-append 0 plain m (suc m),
        k,
        drop-append (length plain) plain rest refl,
        take-append (length plain) plain rest refl,
        bytes_equal_refl rest,
      )
      (ground (arith, l))

-- The padding comes off again.
pub unpad-pad : (plain : Bytes) → unpad (pad plain) ≡ got plain
unpad-pad plain =
    let b = pad_length_bounds (length plain) in
    let e : pad_length (length plain) ≡ suc (pad_length (length plain) - 1) = omega arith in
    rw (pad-eq-append plain, e) (unpad-append plain (pad_length (length plain) - 1) (omega arith))
