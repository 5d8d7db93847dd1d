-- ===== src/Examples/Secrets.antt =====
-- The encryption with a toy cipher.
use tenderduty_nos.Prelude.{
  String, false, ◌≡◌, ◌≢◌, ◌⊎◌, refl, none, some, [], ◌∷◌, ◌++◌, replicate, Map, lookup, insert,
  got, str_eq,
}
use tenderduty_nos.Encryption.{
  Bytes, Crypto, encrypt, decrypt, bytes_equal, FileFaults, Entropy, convert, encrypted_config,
}
use tenderduty_nos.Encryption.RoundTrip.{IsSound, IsSalt, decrypt-encrypt}
use tenderduty_nos.Encryption.Conversion.{encrypted, restored, encrypted_config-IsWhole}

abbrev pub toy : Crypto
toy = record {
  bad_password = λ pass. none;
  id_key = λ pass salt. replicate 64 1;
  new_cipher_error = λ key. none;
  cbc_encrypt = λ key iv text. text;
  cbc_decrypt = λ key iv text. text;
  hmac = λ key text. replicate 32 7;
  encode = λ text. text;
  decode = λ text. got text;
}

pub toy-IsSound : IsSound toy
toy-IsSound = record {
  cbc_length = λ key iv text. refl;
  cbc_inverse = λ key iv text whole. refl;
  hmac_length = λ key text. refl;
  decode_encode = λ text. refl;
}

abbrev pub salt : Bytes
salt = replicate 32 3

pub salt-IsSalt : IsSalt salt
unfolding bytes_equal
salt-IsSalt = record { full = refl; non_zero = refl }

abbrev pub iv : Bytes
iv = replicate 16 4

abbrev pub plain : Bytes
plain = 65 ∷ 66 ∷ 67 ∷ []

abbrev pub sealed : Bytes
sealed = salt ++ (iv ++ ((plain ++ replicate 13 13) ++ replicate 32 7))

pub encrypt_runs : encrypt toy (some salt) (some iv) plain "correct horse" ≡ got sealed
unfolding encrypt bytes_equal
encrypt_runs = refl

decrypt_runs : decrypt toy sealed "correct horse" ≡ got plain
unfolding decrypt bytes_equal
decrypt_runs = refl

decrypt-encrypt_example : decrypt toy sealed "correct horse" ≡ got plain
decrypt-encrypt_example =
    decrypt-encrypt toy salt iv plain sealed "correct horse" toy-IsSound salt-IsSalt refl
      encrypt_runs

abbrev pub no_faults : FileFaults
no_faults = record {
  open_in_err = none;
  read_err = none;
  open_out_err = none;
  write_err = none;
  partial = [];
}

abbrev disk : Map Bytes
disk = ("config.yml", plain) ∷ []

abbrev pub random : Entropy
random = record { salt = some salt; iv = some iv }

encrypted_config-IsWhole_example :
    let result = encrypted_config toy random no_faults "config.yml" "config.asc" "pw" false disk in
    ((result.0 ≡ disk) × ((e : String) × (result.1 ≡ some e)))
    ⊎ ((content : Bytes) × (converted : Bytes) × (lookup "config.yml" disk ≡ some content)
        × (convert toy random false content "pw" ≡ got converted)
        × ((p : String) → p ≢ "config.asc" → lookup p result.0 ≡ lookup p disk))
encrypted_config-IsWhole_example =
    encrypted_config-IsWhole toy random no_faults "config.yml" "config.asc" "pw" false disk

config_is_there : lookup "config.yml" disk ≡ some plain
unfolding lookup str_eq
config_is_there = refl

encrypts :
    (encrypted toy salt iv plain "pw" "config.yml" "config.asc" disk no_faults no_faults).1 ≡ none
unfolding encrypted_config encrypt bytes_equal lookup str_eq
encrypts = refl

restores :
    (restored toy salt iv plain "pw" "config.yml" "config.asc" disk no_faults no_faults).1 ≡ none
unfolding encrypted_config encrypt decrypt bytes_equal lookup insert str_eq
restores = refl
