-- ===== src/Encryption/RoundTrip.antt =====
-- decrypt undoes encrypt (seer/encryption.go).
use mathlib.Core.List.{append_assoc}
use tenderduty_nos.Prelude.{
  ℕ, ◌+◌, ◌-◌, ◌%◌, ◌≤◌, String, false, not, ◌||◌, ◌==◌, ◌≡◌, refl, sym, subst, ◌∙◌, ap, inl, inr,
  arith, none, some, ◌++◌, length, take, drop, length-append, take-append, drop-append, got,
  Reply-cases, Option-cases,
}
use tenderduty_nos.Encryption.Cipher.{
  Bytes, Crypto, Keys, zeros, bytes_equal, id_key_size, iv_size, mac_size, block_size, choose_salt,
  get_key, pad, seal, encrypt, unpad, open_sealed, has_bad_length, decrypt,
}
use tenderduty_nos.Encryption.Slices.{bytes_equal_refl}
use tenderduty_nos.Encryption.Padding.{length-pad, length-pad-mod, pad_length_bounds, unpad-pad}

-- What the packages promise: CBC keeps the length and its two directions undo one another on whole
-- blocks, Base64 decodes what it encodes, and a SHA-256 signature has 32 bytes.
pub record IsSound (c : Crypto) : Type 0 where
  pub cbc_length : (key iv plain : Bytes) → length (c.cbc_encrypt key iv plain) ≡ length plain
  pub cbc_inverse :
      (key iv plain : Bytes)
      → length plain % block_size ≡ 0
      → c.cbc_decrypt key iv (c.cbc_encrypt key iv plain) ≡ plain
  pub hmac_length : (key text : Bytes) → length (c.hmac key text) ≡ mac_size
  pub decode_encode : (text : Bytes) → c.decode (c.encode text) ≡ got text

-- A salt that getKey takes back.
pub record IsSalt (salt : Bytes) : Type 0 where
  pub full : length salt ≡ id_key_size
  pub non_zero : bytes_equal salt (zeros id_key_size) ≡ false

get_key-salt :
    (c : Crypto) (pass : String) (salt : Bytes) (k : Keys)
    → get_key c pass none (some salt) ≡ got k
    → k.salt ≡ salt
unfolding get_key choose_salt
get_key-salt c pass salt k h = ground arith

get_key-known :
    (c : Crypto) (pass : String) (salt : Bytes)
    → IsSalt salt
    → get_key c pass (some salt) none ≡ get_key c pass none (some salt)
unfolding get_key choose_salt
get_key-known c pass salt s =
    let e : (not (length salt == id_key_size) || bytes_equal salt (zeros id_key_size)) ≡ false =
      ground (arith, s.full, s.non_zero) in
    rw (get_key, choose_salt, e) refl

has_bad_length_lem :
    (n size : ℕ)
    → 1 ≤ n
    → n % block_size ≡ 0
    → size ≡ id_key_size + (iv_size + n) + mac_size
    → has_bad_length size ≡ false
unfolding has_bad_length
has_bad_length_lem n size l m e = ground arith

module _ (c : Crypto) (sound : IsSound c) (password : String) (k : Keys) (iv plain : Bytes)
    (salt : IsSalt k.salt) (full : length iv ≡ iv_size)
    (known : get_key c password (some k.salt) none ≡ got k)
    (usable : c.new_cipher_error k.key ≡ none) where
  cipher_text : Bytes
  cipher_text = c.cbc_encrypt k.key iv (pad plain)

  body : Bytes
  unfolding cipher_text
  body = k.salt ++ (iv ++ cipher_text)

  length-body : length body ≡ id_key_size + (iv_size + length (pad plain))
  unfolding body
  length-body = omega (
    arith,
    length-append k.salt (iv ++ cipher_text),
    length-append iv cipher_text,
    sound.cbc_length k.key iv (pad plain),
    salt.full,
    full,
  )

  length-seal : length (seal c k iv cipher_text) ≡ length body + mac_size
  unfolding seal body
  length-seal =
      omega (arith, length-append body (c.hmac k.mac_key body), sound.hmac_length k.mac_key body)

  has_bad_length-seal : has_bad_length (length (seal c k iv cipher_text)) ≡ false
  has_bad_length-seal =
      let b = pad_length_bounds (length plain) in
      has_bad_length_lem (length (pad plain)) _ (omega (arith, length-pad plain))
        (length-pad-mod plain) (omega (arith, length-seal, length-body))

  seal-eq-append : seal c k iv cipher_text ≡ body ++ c.hmac k.mac_key body
  unfolding seal body
  seal-eq-append = refl

  seal-eq-salt_append :
      seal c k iv cipher_text ≡ k.salt ++ (iv ++ (cipher_text ++ c.hmac k.mac_key body))
  unfolding body
  seal-eq-salt_append = simp (seal-eq-append, append_assoc)

  take-seal : take id_key_size (seal c k iv cipher_text) ≡ k.salt
  take-seal = rw seal-eq-salt_append (take-append id_key_size k.salt _ salt.full)

  iv-seal : take iv_size (drop id_key_size (seal c k iv cipher_text)) ≡ iv
  iv-seal =
      rw
        (
          seal-eq-salt_append,
          drop-append id_key_size k.salt (iv ++ (cipher_text ++ c.hmac k.mac_key body)) salt.full,
        )
        (take-append iv_size iv _ full)

  signed_length : length (seal c k iv cipher_text) - mac_size ≡ length body
  signed_length = omega (arith, length-seal)

  body-seal : take (length (seal c k iv cipher_text) - mac_size) (seal c k iv cipher_text) ≡ body
  body-seal = rw (signed_length, seal-eq-append) (take-append (length body) body _ refl)

  mac-seal :
      drop (length (seal c k iv cipher_text) - mac_size) (seal c k iv cipher_text)
      ≡ c.hmac k.mac_key body
  mac-seal = rw (signed_length, seal-eq-append) (drop-append (length body) body _ refl)

  drop-body : drop (iv_size + id_key_size) body ≡ cipher_text
  unfolding body
  drop-body = rw (← append_assoc k.salt iv cipher_text) (
      drop-append (iv_size + id_key_size) (k.salt ++ iv) cipher_text
        (omega (arith, length-append k.salt iv, salt.full, full)))

  decrypted : c.cbc_decrypt k.key iv cipher_text ≡ pad plain
  unfolding cipher_text
  decrypted = sound.cbc_inverse k.key iv (pad plain) (length-pad-mod plain)

  open_sealed-seal : open_sealed c password (seal c k iv cipher_text) ≡ got plain
  unfolding open_sealed
  open_sealed-seal =
      rw
        (
          open_sealed,
          take-seal,
          known,
          body-seal,
          mac-seal,
          bytes_equal_refl (c.hmac k.mac_key body),
          usable,
          iv-seal,
          drop-body,
        )
        (ap unpad decrypted ∙ unpad-pad plain)

  decrypt-seal : decrypt c (c.encode (seal c k iv cipher_text)) password ≡ got plain
  unfolding decrypt
  decrypt-seal =
      rw (decrypt, sound.decode_encode (seal c k iv cipher_text), has_bad_length-seal)
        open_sealed-seal

-- What encrypt makes of a plain text, decrypt takes back with the same password: the text is returned
-- unchanged, whatever its length. The packages must keep their promises, and the random salt must be
-- one that getKey takes back.
pub decrypt-encrypt :
    (c : Crypto) (salt iv plain out : Bytes) (password : String)
    → IsSound c
    → IsSalt salt
    → length iv ≡ iv_size
    → encrypt c (some salt) (some iv) plain password ≡ got out
    → decrypt c out password ≡ got plain
unfolding encrypt cipher_text
decrypt-encrypt c salt iv plain out password sound s full h =
    elim (Reply-cases (get_key c password none (some salt))) [
      | inr (e, g) ↦ absurd (ground (arith, h, g))
      | inl (k, g) ↦ elim (Option-cases (c.new_cipher_error k.key)) [
        | inr (e, u) ↦ absurd (ground (arith, h, g, u))
        | inl u ↦
            let e = get_key-salt c password salt k g in
            let known =
              subst (λ x. get_key c password (some x) none ≡ got k) (sym e)
                (get_key-known c password salt s ∙ g) in
            let sealed : c.encode (seal c k iv (c.cbc_encrypt k.key iv (pad plain))) ≡ out =
              ground (arith, h, g, u) in
            rw (← sealed)
              (decrypt-seal c sound password k iv plain (subst IsSalt (sym e) s) full known u)
      ]
    ]
