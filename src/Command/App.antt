-- ===== src/Command/App.antt =====
-- runApp (main.go). The password that the terminal gives is an argument. `started` is the call of Run, which
-- Loading and Lifecycle model; its error is the exit code 1. What is printed is not modelled.
use tenderduty_nos.Prelude.{
  ℕ, String, Bool, ◌||◌, if◌then◌else◌, Option, none, some, str_eq, List, Map, Reply, got, failed,
}
use tenderduty_nos.Encryption.{Bytes, Crypto, FileFaults, Entropy, encrypted_config}
use tenderduty_nos.Command.Flags.{Options, options, help, bad, parse_options}

-- The files afterwards and the exit code, or the options that Run is called with.
pub data Outcome : Type 0 where
  exited : Map Bytes → ℕ → Outcome
  started : Options → Outcome

-- What the process meets outside: the packages, the random bytes, the file system's faults, the terminal,
-- the environment and whether a file exists.
pub record Outside : Type 0 where
  pub crypto : Crypto
  pub entropy : Entropy
  pub faults : FileFaults
  pub read_password : Reply String
  pub getenv : String → String
  pub exists : String → Bool

unfoldable pub password_of : Outside → Options → Reply String
password_of w o = if str_eq o.password "" then w.read_password else got o.password

abbrev pub code_of : Option String → ℕ
code_of none = 0
code_of (some e) = 1

-- The part for -encrypt and -decrypt; the second wins.
unfoldable pub convert_config : Outside → Options → Map Bytes → Outcome
unfolding password_of
convert_config w o disk = elim (password_of w o) [
  | failed e ↦ exited disk 1
  | got password ↦
      let (disk', error) =
        encrypted_config w.crypto w.entropy w.faults o.config_file o.encrypted_file password
          o.decrypt_config disk in
      exited disk' (code_of error)
]

unfoldable pub run_app : Outside → List String → Map Bytes → Outcome
unfolding convert_config
run_app w args disk = elim (parse_options args w.getenv w.exists) [
  | help ↦ exited disk 0
  | bad ↦ exited disk 2
  | options o ↦
      if o.show_version || o.dump_config
      then exited disk 0
      else if o.encrypt_config || o.decrypt_config
      then convert_config w o disk
      else started o
]
