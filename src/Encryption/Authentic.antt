-- ===== src/Encryption/Authentic.antt =====
-- What decrypt accepts (seer/encryption.go).
use tenderduty_nos.Prelude.{
  ℕ, ◌-◌, ◌%◌, ◌≤◌, String, false, ◌≡◌, inl, inr, arith, none, some, length, take, drop, got,
  Reply-cases, Bool-cases,
}
use tenderduty_nos.Encryption.Cipher.{
  Bytes, Crypto, Keys, bytes_equal, id_key_size, mac_size, minimum_size, get_key, open_sealed,
  has_bad_length, decrypt,
}
use tenderduty_nos.Encryption.Slices.{bytes_equal→eq}

-- The text ends with the signature of all that stands before, by the key of the password and the salt
-- at the text's start.
abbrev pub IsSigned : Crypto → String → Bytes → Type 0
IsSigned c password text =
    (k : Keys) × (get_key c password (some (take id_key_size text)) none ≡ got k)
    × (drop (length text - mac_size) text ≡ c.hmac k.mac_key (take (length text - mac_size) text))

open_sealed-IsSigned :
    (c : Crypto) (password : String) (text plain : Bytes)
    → open_sealed c password text ≡ got plain
    → IsSigned c password text
unfolding open_sealed
open_sealed-IsSigned c password text plain h =
    elim (Reply-cases (get_key c password (some (take id_key_size text)) none)) [
      | inr (e, g) ↦ absurd (ground (arith, h, g))
      | inl (k, g) ↦
          let body = take (length text - mac_size) text in
          let mac = drop (length text - mac_size) text in
          elim (Bool-cases (bytes_equal mac (c.hmac k.mac_key body))) [
            | inl m ↦ (k, g, bytes_equal→eq mac (c.hmac k.mac_key body) m)
            | inr m ↦ absurd (ground (arith, h, g, m))
          ]
    ]

has_bad_length-minimum : (n : ℕ) → has_bad_length n ≡ false → minimum_size ≤ n
unfolding has_bad_length
has_bad_length-minimum n h = ground arith

has_bad_length-blocks : (n : ℕ) → has_bad_length n ≡ false → n % 16 ≡ 0
unfolding has_bad_length
has_bad_length-blocks n h = ground arith

-- No forgery: a file that decrypt accepts is Base64 of a text that is long enough, holds whole blocks
-- and is signed by the password.
pub decrypt-IsSigned :
    (c : Crypto) (encoded plain : Bytes) (password : String)
    → decrypt c encoded password ≡ got plain
    → (text : Bytes) × (c.decode encoded ≡ got text)
      × (minimum_size ≤ length text)
      × (length text % 16 ≡ 0)
      × IsSigned c password text
unfolding decrypt
decrypt-IsSigned c encoded plain password h = elim (Reply-cases (c.decode encoded)) [
  | inr (e, g) ↦ absurd (ground (arith, h, g))
  | inl (text, g) ↦ elim (Bool-cases (has_bad_length (length text))) [
    | inl b ↦ absurd (ground (arith, h, g, b))
    | inr b ↦ (
      text,
      g,
      has_bad_length-minimum (length text) b,
      has_bad_length-blocks (length text) b,
      open_sealed-IsSigned c password text plain (ground (arith, h, g, b)),
    )
  ]
]
