-- ===== src/Encryption/Cipher.antt =====
-- getKey, encrypt and decrypt (seer/encryption.go). A byte slice is a list of numbers.
--
-- `Crypto` is what the packages outside the repository compute: the password validator, Argon2id with
-- the parameters that getKey gives it, AES in CBC mode, HMAC with SHA-256 and Base64. What rand.Read
-- gives is an argument, `none` where it fails.
use tenderduty_nos.Prelude.{
  ℕ, ◌+◌, ◌-◌, ◌*◌, ◌%◌, String, Bool, true, false, not, ◌&&◌, ◌||◌, if◌then◌else◌, ◌==◌, ltb,
  Option, none, some, List, [], ◌∷◌, ◌++◌, length, take, drop, replicate, Reply, got, failed, ◌>>=◌,
  ◌>>◌, refuse_if,
}

abbrev pub Bytes : Type 0
Bytes = List ℕ

abbrev pub id_key_size : ℕ
id_key_size = 32

abbrev pub iv_size : ℕ
iv_size = 16

abbrev pub mac_size : ℕ
mac_size = 32

-- `aes.BlockSize`, which is also the block size of its CBC mode.
abbrev pub block_size : ℕ
block_size = 16

pub record Crypto : Type 0 where
  pub bad_password : String → Option String
  pub id_key : String → Bytes → Bytes
  pub new_cipher_error : Bytes → Option String
  pub cbc_encrypt : Bytes → Bytes → Bytes → Bytes
  pub cbc_decrypt : Bytes → Bytes → Bytes → Bytes
  pub hmac : Bytes → Bytes → Bytes
  pub encode : Bytes → Bytes
  pub decode : Bytes → Reply Bytes

-- `bytes.Equal` and `hmac.Equal`
unfoldable pub bytes_equal : Bytes → Bytes → Bool
bytes_equal [] [] = true
bytes_equal [] (y ∷ ys) = false
bytes_equal (x ∷ xs) [] = false
bytes_equal (x ∷ xs) (y ∷ ys) = x == y && bytes_equal xs ys

abbrev pub zeros : ℕ → Bytes
zeros n = replicate n 0

-- A check that hands an error on, and a value that may be missing.
abbrev pub check : Option String → Reply (Unit {0})
check none = got tt
check (some e) = failed e

abbrev pub require : Option Bytes → Reply Bytes
require none = failed "could not read random bytes"
require (some xs) = got xs

pub record Keys : Type 0 where
  pub key : Bytes
  pub mac_key : Bytes
  pub salt : Bytes

abbrev salt_error : String
salt_error = "salt must be 32 bytes and non-zero"

-- The salt: a given one is checked, and a missing one is `random`.
unfoldable pub choose_salt : Option Bytes → Option Bytes → Reply Bytes
choose_salt none random = require random
choose_salt (some salt) random =
    if not (length salt == id_key_size) || bytes_equal salt (zeros id_key_size)
    then failed salt_error
    else got salt

unfoldable pub get_key : Crypto → String → Option Bytes → Option Bytes → Reply Keys
unfolding choose_salt
get_key c pass known_salt random = do
  check (c.bad_password pass)
  salt ← choose_salt known_salt random
  let keys = c.id_key pass salt
  refuse_if (not (length keys == id_key_size * 2) || bytes_equal keys (zeros (id_key_size * 2)))
      "invalid key, was all zeros"
  got (record { key = take id_key_size keys; mac_key = drop id_key_size keys; salt = salt })

-- The padding of a plain text: of a whole block where it fills its blocks.
unfoldable pub pad_length : ℕ → ℕ
pad_length n = block_size - n % block_size

unfoldable pub pad : Bytes → Bytes
unfolding pad_length
pad plain = let n = pad_length (length plain) in if ltb 0 n then plain ++ replicate n n else plain

-- The salt, the initialisation vector, the cipher text and their signature, before the encoding.
unfoldable pub seal : Crypto → Keys → Bytes → Bytes → Bytes
seal c k iv cipher_text = let body = k.salt ++ (iv ++ cipher_text) in body ++ c.hmac k.mac_key body

unfoldable pub encrypt : Crypto → Option Bytes → Option Bytes → Bytes → String → Reply Bytes
unfolding get_key pad seal
encrypt c random_salt random_iv plain password = do
  refuse_if (length plain == 0) "invalid config file"
  k ← get_key c password none random_salt
  check (c.new_cipher_error k.key)
  iv ← require random_iv
  let cipher_text = c.cbc_encrypt k.key iv (pad plain)
  refuse_if (length cipher_text == 0) "invalid ciphertext, nothing encrypted"
  got (c.encode (seal c k iv cipher_text))

abbrev pub minimum_size : ℕ
minimum_size = id_key_size + iv_size + block_size + mac_size

-- `plainText[len(plainText)-1]`
unfoldable pub last_or : ℕ → Bytes → ℕ
last_or d [] = d
last_or d (x ∷ xs) = last_or x xs

abbrev padding_error : String
padding_error = "plaintext has invalid padding"

unfoldable pub unpad : Bytes → Reply Bytes
unfolding last_or
unpad plain = do
  refuse_if (length plain == 0) "plaintext was empty"
  let n = last_or 0 plain
  let kept = length plain - n
  refuse_if (ltb n 1 || ltb block_size n || ltb (length plain) n) padding_error
  refuse_if (not (bytes_equal (drop kept plain) (replicate n n))) padding_error
  got (take kept plain)

-- A text whose length has been checked: its keys, its signature, and its plain text.
unfoldable pub open_sealed : Crypto → String → Bytes → Reply Bytes
unfolding get_key unpad
open_sealed c password text = do
  k ← get_key c password (some (take id_key_size text)) none
  let auth_text = take (length text - mac_size) text
  refuse_if (not (bytes_equal (drop (length text - mac_size) text) (c.hmac k.mac_key auth_text)))
      "HMAC authentication failed"
  check (c.new_cipher_error k.key)
  let iv = take iv_size (drop id_key_size text)
  unpad (c.cbc_decrypt k.key iv (drop (iv_size + id_key_size) auth_text))

-- The remainder is that of an `int`, and read only where `size` is not below the minimum.
unfoldable pub has_bad_length : ℕ → Bool
has_bad_length size =
    ltb size minimum_size || not ((size - id_key_size - iv_size - mac_size) % block_size == 0)

unfoldable pub decrypt : Crypto → Bytes → String → Reply Bytes
unfolding open_sealed has_bad_length
decrypt c encoded password = do
  text ← c.decode encoded
  refuse_if (has_bad_length (length text)) "ciphertext has an invalid length"
  open_sealed c password text
