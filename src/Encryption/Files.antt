-- ===== src/Encryption/Files.antt =====
-- EncryptedConfig (seer/encryption.go) on a disk that maps paths to contents. Every file operation may
-- fail, as `FileFaults` says; a write that fails leaves `partial` in the file, which was emptied before.
use tenderduty_nos.Prelude.{
  String, Bool, true, false, Option, none, some, Map, lookup, insert, Reply, got, failed,
  if◌then◌else◌,
}
use tenderduty_nos.Encryption.Cipher.{Bytes, Crypto, encrypt, decrypt}

pub record FileFaults : Type 0 where
  pub open_in_err : Option String
  pub read_err : Option String
  pub open_out_err : Option String
  pub write_err : Option String
  pub partial : Bytes

-- The random bytes that an encryption takes.
pub record Entropy : Type 0 where
  pub salt : Option Bytes
  pub iv : Option Bytes

unfoldable pub read_file : FileFaults → String → Map Bytes → Reply Bytes
read_file f path disk = elim f.open_in_err [
  | some e ↦ failed e
  | none ↦ elim (lookup path disk) [
    | none ↦ failed "no such file or directory"
    | some content ↦ elim f.read_err [ none ↦ got content | some e ↦ failed e ]
  ]
]

unfoldable pub write_file : FileFaults → String → Bytes → Map Bytes → Map Bytes × Option String
write_file f path content disk = elim f.open_out_err [
  | some e ↦ (disk, some e)
  | none ↦ elim f.write_err [
    | none ↦ (insert path content disk, none)
    | some e ↦ (insert path f.partial disk, some e)
  ]
]

unfoldable pub convert : Crypto → Entropy → Bool → Bytes → String → Reply Bytes
convert c r true content password = decrypt c content password
convert c r false content password = encrypt c r.salt r.iv content password

-- The disk afterwards, and the error.
unfoldable pub encrypted_config :
    Crypto
    → Entropy
    → FileFaults
    → String
    → String
    → String
    → Bool
    → Map Bytes
    → Map Bytes × Option String
unfolding read_file write_file convert
encrypted_config c r f plaintext ciphertext password decrypting disk =
    let infile = if decrypting then ciphertext else plaintext in
    let outfile = if decrypting then plaintext else ciphertext in
    elim (read_file f infile disk) [
      | failed e ↦ (disk, some e)
      | got content ↦ elim (convert c r decrypting content password) [
        | failed e ↦ (disk, some e)
        | got converted ↦ write_file f outfile converted disk
      ]
    ]
