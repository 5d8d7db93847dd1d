-- ===== src/Loading/Remote.antt =====
-- A remote configuration (seer/types.go): it is refused unless it is signed, and its encrypted file is
-- loaded as the plain one would be.
use tenderduty_nos.Prelude.{
  String, true, false, ◌≡◌, ◌≢◌, ◌≤◌, refl, arith, str_eq, ne_of_str_eq, length, ◌%◌, some, got,
  Reply-cases, Bool-cases, Time, inl, inr,
}
use tenderduty_nos.AlarmCache.{AlarmCache}
use tenderduty_nos.Config.{Config}
use tenderduty_nos.Encryption.{Bytes, encrypt, decrypt, minimum_size, iv_size}
use tenderduty_nos.Encryption.RoundTrip.{IsSound, IsSalt, decrypt-encrypt}
use tenderduty_nos.Encryption.Authentic.{IsSigned, decrypt-IsSigned}
use tenderduty_nos.Loading.Load.{Source, is_remote, read_config, ready, load_config}

read_config-decrypted :
    (s : Source) (file password : String) (config : Config)
    → is_remote file ≡ true
    → read_config s file password ≡ got config
    → (password ≢ "")
      × (b : Bytes) × (plain : Bytes) × (s.fetch file ≡ got b)
      × (decrypt s.crypto b password ≡ got plain)
unfolding read_config
read_config-decrypted s file password config remote h = elim (Bool-cases (str_eq password "")) [
  | inl e ↦ absurd (ground (arith, h, remote, e))
  | inr e ↦ elim (Reply-cases (s.fetch file)) [
    | inr (t, f) ↦ absurd (ground (arith, h, remote, e, f))
    | inl (b, f) ↦ elim (Reply-cases (decrypt s.crypto b password)) [
      | inr (t, g) ↦ absurd (ground (arith, h, remote, e, f, g))
      | inl (plain, g) ↦ (ne_of_str_eq password "" e, b, plain, f, g)
    ]
  ]
]

-- A remote configuration is loaded only with a password that is not empty, and only if what was
-- downloaded is the Base64 of a text that is long enough, holds whole blocks and is signed by the
-- password.
pub load_config-IsSigned :
    (s : Source) (now : Time) (file state_file directory password : String) (config : Config)
    (cache : AlarmCache)
    → is_remote file ≡ true
    → load_config s now file state_file directory password ≡ ready config cache
    → (password ≢ "")
      × (b : Bytes) × (text : Bytes) × (s.fetch file ≡ got b)
      × (s.crypto.decode b ≡ got text)
      × (minimum_size ≤ length text)
      × (length text % 16 ≡ 0)
      × IsSigned s.crypto password text
unfolding load_config
load_config-IsSigned s now file state_file directory password config cache remote h =
    elim (Reply-cases (read_config s file password)) [
      | inr (e, g) ↦ absurd (ground (arith, h, g))
      | inl (c, g) ↦
          let (filled, b, plain, f, d) = read_config-decrypted s file password c remote g in
          let (text, e, long, whole, signed) = decrypt-IsSigned s.crypto b plain password d in
          (filled, b, text, f, e, long, whole, signed)
    ]

read_config-decrypt :
    (s : Source) (url file password : String) (plain out : Bytes)
    → is_remote url ≡ true
    → is_remote file ≡ false
    → str_eq password "" ≡ false
    → s.fetch url ≡ got out
    → s.read_file file ≡ got plain
    → decrypt s.crypto out password ≡ got plain
    → read_config s url password ≡ read_config s file password
unfolding read_config
read_config-decrypt s url file password plain out remote near filled fetched read d =
    rw (read_config, remote, near, filled, fetched, read, d) refl

-- A remote file that encrypt made of the content of a local file is loaded, with the password it was made
-- with, to exactly what the local file is loaded to: configuration, alarms or failure. The password is
-- not empty, and the packages keep the promises that the encryption relies on.
pub load_config-encrypt :
    (s : Source) (now : Time) (url file state_file directory password : String)
    (salt iv plain out : Bytes)
    → IsSound s.crypto
    → IsSalt salt
    → length iv ≡ iv_size
    → encrypt s.crypto (some salt) (some iv) plain password ≡ got out
    → is_remote url ≡ true
    → is_remote file ≡ false
    → str_eq password "" ≡ false
    → s.fetch url ≡ got out
    → s.read_file file ≡ got plain
    → load_config s now url state_file directory password
      ≡ load_config s now file state_file directory password
unfolding load_config
load_config-encrypt s now url file state_file directory password salt iv plain out sound fresh full
      made remote near filled fetched read =
    let d = decrypt-encrypt s.crypto salt iv plain out password sound fresh full made in
    let same =
      read_config-decrypt s url file password plain out remote near filled fetched read d in
    rw (load_config, same) refl
