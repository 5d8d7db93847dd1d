-- ===== src/Encryption/Conversion.antt =====
-- What EncryptedConfig does to the disk (seer/encryption.go).
use tenderduty_nos.Prelude.{
  String, Bool, true, false, ◌≡◌, ◌≢◌, refl, sym, ◌∙◌, ◌⊎◌, inl, inr, arith, Option, none, some,
  Map, lookup, lookup-insert_same, lookup-insert_other, got, Reply-cases, if◌then◌else◌, length,
}
use tenderduty_nos.Encryption.Cipher.{Bytes, Crypto, iv_size}
use tenderduty_nos.Encryption.Files.{
  FileFaults, Entropy, read_file, write_file, convert, encrypted_config,
}
use tenderduty_nos.Encryption.RoundTrip.{IsSound, IsSalt, decrypt-encrypt}

read_file-lookup :
    (f : FileFaults) (path : String) (disk : Map Bytes) (content : Bytes)
    → read_file f path disk ≡ got content
    → lookup path disk ≡ some content
unfolding read_file
read_file-lookup f path disk content h = ground arith

write_file-other :
    (f : FileFaults) (path : String) (content : Bytes) (disk : Map Bytes) (p : String)
    → p ≢ path
    → lookup p (write_file f path content disk).0 ≡ lookup p disk
unfolding write_file
write_file-other f path content disk p ne = ground (
  arith,
  lookup-insert_other path p content disk ne,
  lookup-insert_other path p f.partial disk ne,
)

write_file-lookup :
    (f : FileFaults) (path : String) (content : Bytes) (disk : Map Bytes)
    → (write_file f path content disk).1 ≡ none
    → lookup path (write_file f path content disk).0 ≡ some content
unfolding write_file
write_file-lookup f path content disk h = ground (arith, h, lookup-insert_same path content disk)

-- Either nothing has changed, or the input was read and converted and the output alone has changed.
pub encrypted_config-IsWhole :
    (c : Crypto) (r : Entropy) (f : FileFaults) (plaintext ciphertext password : String)
    (decrypting : Bool) (disk : Map Bytes)
    → let infile = if decrypting then ciphertext else plaintext in
      let outfile = if decrypting then plaintext else ciphertext in
      let result = encrypted_config c r f plaintext ciphertext password decrypting disk in
      ((result.0 ≡ disk) × ((e : String) × (result.1 ≡ some e)))
      ⊎ ((content : Bytes) × (converted : Bytes) × (lookup infile disk ≡ some content)
          × (convert c r decrypting content password ≡ got converted)
          × ((p : String) → p ≢ outfile → lookup p result.0 ≡ lookup p disk))
unfolding encrypted_config
encrypted_config-IsWhole c r f plaintext ciphertext password decrypting disk =
    let infile = if decrypting then ciphertext else plaintext in
    let outfile = if decrypting then plaintext else ciphertext in
    elim (Reply-cases (read_file f infile disk)) [
      | inr (e, g) ↦ rw (encrypted_config, g) (inl (refl, (e, refl)))
      | inl (content, g) ↦ elim (Reply-cases (convert c r decrypting content password)) [
        | inr (e, h) ↦ rw (encrypted_config, g, h) (inl (refl, (e, refl)))
        | inl (out, h) ↦
            rw (encrypted_config, g, h)
              (inr (
                content,
                out,
                read_file-lookup f infile disk content g,
                h,
                write_file-other f outfile out disk,
              ))
      ]
    ]

-- A conversion that reports no error has written what it made of the input.
encrypted_config-done :
    (c : Crypto) (r : Entropy) (f : FileFaults) (plaintext ciphertext password : String)
    (decrypting : Bool) (disk : Map Bytes) (content : Bytes)
    → let infile = if decrypting then ciphertext else plaintext in
      let outfile = if decrypting then plaintext else ciphertext in
      let result = encrypted_config c r f plaintext ciphertext password decrypting disk in
      lookup infile disk ≡ some content
      → result.1 ≡ none
      → (converted : Bytes) × (convert c r decrypting content password ≡ got converted)
        × (lookup outfile result.0 ≡ some converted)
unfolding encrypted_config
encrypted_config-done c r f plaintext ciphertext password decrypting disk content here done =
    let infile = if decrypting then ciphertext else plaintext in
    let outfile = if decrypting then plaintext else ciphertext in
    elim (Reply-cases (read_file f infile disk)) [
      | inr (e, g) ↦ absurd (ground (arith, done, g))
      | inl (x, g) ↦
          let same : some x ≡ some content = sym (read_file-lookup f infile disk x g) ∙ here in
          let g' : read_file f infile disk ≡ got content = ground (arith, g, same) in
          elim (Reply-cases (convert c r decrypting content password)) [
            | inr (e, h) ↦ absurd (ground (arith, done, g', h))
            | inl (out, h) ↦
                rw (encrypted_config, g', h)
                  (out, refl, write_file-lookup f outfile out disk (ground (arith, done, g', h)))
          ]
    ]

module _ (c : Crypto) (salt iv plain : Bytes) (password plaintext ciphertext : String)
    (disk : Map Bytes) (f g : FileFaults) where
  abbrev pub encrypted : Map Bytes × Option String
  encrypted =
      encrypted_config c (record { salt = some salt; iv = some iv }) f plaintext ciphertext password
        false disk

  abbrev pub restored : Map Bytes × Option String
  restored =
      encrypted_config c (record { salt = none; iv = none }) g plaintext ciphertext password true
        encrypted.0

  -- A file that was encrypted and then decrypted without an error has its content back.
  pub encrypted_config-restores :
      IsSound c
      → IsSalt salt
      → length iv ≡ iv_size
      → lookup plaintext disk ≡ some plain
      → encrypted.1 ≡ none
      → restored.1 ≡ none
      → lookup plaintext restored.0 ≡ some plain
  unfolding convert
  encrypted_config-restores sound s full here done back =
      let first =
        encrypted_config-done c (record { salt = some salt; iv = some iv }) f plaintext ciphertext
          password false disk plain here done in
      let second =
        encrypted_config-done c (record { salt = none; iv = none }) g plaintext ciphertext password
          true encrypted.0 first.0 first.2 back in
      let e = decrypt-encrypt c salt iv plain first.0 password sound s full first.1 in
      second.2 ∙ (let same : got second.0 ≡ got plain = sym second.1 ∙ e in ground (arith, same))
