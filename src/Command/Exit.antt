-- ===== src/Command/Exit.antt =====
-- Encryption and decryption from the command line (main.go, seer/encryption.go).
use tenderduty_nos.Prelude.{
  ℕ, String, Bool, true, false, ◌||◌, ◌≡◌, refl, sym, ap, ◌∙◌, subst, arith, Option, none, some,
  List, length, Map, lookup, got,
}
use tenderduty_nos.Encryption.{
  Bytes, Crypto, Entropy, FileFaults, encrypted_config, convert, iv_size,
}
use tenderduty_nos.Encryption.RoundTrip.{IsSound, IsSalt}
use tenderduty_nos.Encryption.Conversion.{encrypted_config-restores}
use tenderduty_nos.Command.Flags.{Options, options, parse_options}
use tenderduty_nos.Command.App.{Outside, exited, password_of, convert_config, run_app, code_of}

-- The options ask for a conversion, of this kind, and its password is at hand.
pub record Asks (w : Outside) (o : Options) (decrypting : Bool) (password : String) : Type 0 where
  pub no_version : o.show_version ≡ false
  pub no_dump : o.dump_config ≡ false
  pub wanted : o.encrypt_config || o.decrypt_config ≡ true
  pub kind : o.decrypt_config ≡ decrypting
  pub known : password_of w o ≡ got password

code_of-zero : (e : Option String) → code_of e ≡ 0 → e ≡ none
code_of-zero none h = refl
code_of-zero (some e) h = absurd (omega (arith, h))

run_app-asked :
    (w : Outside) (args : List String) (o : Options) (decrypting : Bool) (password : String)
    (disk : Map Bytes)
    → parse_options args w.getenv w.exists ≡ options o
    → Asks w o decrypting password
    → let result =
        encrypted_config w.crypto w.entropy w.faults o.config_file o.encrypted_file password
          decrypting disk in
      run_app w args disk ≡ exited result.0 (code_of result.1)
unfolding run_app convert_config
run_app-asked w args o decrypting password disk parsed asks =
    rw
      (
        run_app, parsed, asks.no_version, asks.no_dump, asks.wanted, convert_config, asks.known,
        asks.kind,
      )
      refl

exited-parts : (a b : Map Bytes) (n m : ℕ) → exited a n ≡ exited b m → (a ≡ b) × (n ≡ m)
exited-parts a b n m h = (cc, cc)

run_app-converts :
    (w : Outside) (args : List String) (o : Options) (decrypting : Bool) (password : String)
    (disk after : Map Bytes)
    → parse_options args w.getenv w.exists ≡ options o
    → Asks w o decrypting password
    → run_app w args disk ≡ exited after 0
    → let result =
        encrypted_config w.crypto w.entropy w.faults o.config_file o.encrypted_file password
          decrypting disk in
      (result.0 ≡ after) × (result.1 ≡ none)
run_app-converts w args o decrypting password disk after parsed asks h =
    let asked = run_app-asked w args o decrypting password disk parsed asks in
    let (same, code) = exited-parts _ after _ 0 (sym asked ∙ h) in (same, code_of-zero _ code)

-- decrypt takes no random bytes.
decrypting-entropy :
    (c : Crypto) (r q : Entropy) (f : FileFaults) (plaintext ciphertext password : String)
    (disk : Map Bytes)
    → encrypted_config c r f plaintext ciphertext password true disk
      ≡ encrypted_config c q f plaintext ciphertext password true disk
unfolding encrypted_config convert
decrypting-entropy c r q f plaintext ciphertext password disk = refl

-- A call with -encrypt that exits with 0, and then a call with -decrypt for the same files and the same
-- password that exits with 0, leave the configuration file with the content it had before, whatever
-- else the disk holds. The random bytes of the first call must be a salt that getKey takes back and a
-- whole initial vector, and the packages must keep their promises.
pub run_app-restores :
    (w v : Outside) (encrypting decrypting : List String) (o p : Options) (salt iv plain : Bytes)
    (password : String) (disk between after : Map Bytes)
    → IsSound w.crypto
    → IsSalt salt
    → length iv ≡ iv_size
    → w.entropy ≡ record { salt = some salt; iv = some iv }
    → v.crypto ≡ w.crypto
    → parse_options encrypting w.getenv w.exists ≡ options o
    → parse_options decrypting v.getenv v.exists ≡ options p
    → Asks w o false password
    → Asks v p true password
    → p.config_file ≡ o.config_file
    → p.encrypted_file ≡ o.encrypted_file
    → lookup o.config_file disk ≡ some plain
    → run_app w encrypting disk ≡ exited between 0
    → run_app v decrypting between ≡ exited after 0
    → lookup o.config_file after ≡ some plain
run_app-restores w v encrypting decrypting o p salt iv plain password disk between after sound fresh
      full random same_crypto parsed_o parsed_p asks_o asks_p same_file same_encrypted here first
      second =
    let a = run_app-converts w encrypting o false password disk between parsed_o asks_o first in
    let b = run_app-converts v decrypting p true password between after parsed_p asks_p second in
    let r : Entropy = record { salt = some salt; iv = some iv } in
    let q : Entropy = record { salt = none; iv = none } in
    let made =
      encrypted_config w.crypto r w.faults o.config_file o.encrypted_file password false disk in
    let same_made : encrypted_config w.crypto w.entropy w.faults o.config_file o.encrypted_file
          password false disk
        ≡ made =
      ap
        (λ x.
          encrypted_config w.crypto x w.faults o.config_file o.encrypted_file password false disk)
        random in
    let stored : made.0 ≡ between = sym (ap (λ x. x.0) same_made) ∙ a.0 in
    let back =
      encrypted_config w.crypto q v.faults o.config_file o.encrypted_file password true made.0 in
    let same : back
        ≡ encrypted_config v.crypto v.entropy v.faults p.config_file p.encrypted_file password true
            between =
      rw (stored, same_crypto, same_file, same_encrypted)
        (decrypting-entropy w.crypto q v.entropy v.faults o.config_file o.encrypted_file password
          between) in
    subst (λ d. lookup o.config_file d ≡ some plain) (ap (λ x. x.0) same ∙ b.0)
      (encrypted_config-restores w.crypto salt iv plain password o.config_file o.encrypted_file disk
        w.faults v.faults sound fresh full here (sym (ap (λ x. x.1) same_made) ∙ a.1)
        (ap (λ x. x.1) same ∙ b.1))
