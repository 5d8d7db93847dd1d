-- ===== src/Examples/Commands.antt =====
-- The command line at work.
use mathlib.Core.Logic.{◌↔◌}
use tenderduty_nos.Prelude.{◌≡◌, refl, true, false, some, [], ◌∷◌, Map, lookup, insert, str_eq, got}
use tenderduty_nos.Encryption.{Bytes, encrypt, decrypt, bytes_equal, encrypted_config}
use tenderduty_nos.Command.{
  Options, default_options, options, parse_options, parse_flags, read_argument, read_name,
  split_value, apply_flag, text_flag, bool_flag, set_text, set_bool, with_legacy_state,
  with_environment, default_state_file, legacy_state_file, Outside, exited, run_app, convert_config,
  password_of,
}
use tenderduty_nos.Command.State.{parse_options-state_file}
use tenderduty_nos.Command.Exit.{Asks, run_app-restores}
use tenderduty_nos.Examples.Secrets.{
  toy, toy-IsSound, salt, salt-IsSalt, iv, plain, sealed, no_faults, random,
}

abbrev outside : Outside
outside = record {
  crypto = toy;
  entropy = random;
  faults = no_faults;
  read_password = got "correct horse";
  getenv = λ name. "";
  exists = λ name. str_eq name legacy_state_file;
}

abbrev encrypting : Options
encrypting = record default_options {
  encrypt_config = true;
  state_file = legacy_state_file;
  using_legacy_state = true;
}

parses_encrypt : parse_options ("-encrypt" ∷ []) outside.getenv outside.exists ≡ options encrypting
unfolding parse_options parse_flags read_argument read_name split_value apply_flag text_flag
    bool_flag set_text set_bool with_legacy_state with_environment str_eq
parses_encrypt = refl

abbrev decrypting : Options
decrypting = record encrypting { encrypt_config = false; decrypt_config = true }

parses_decrypt :
    parse_options ("--decrypt=true" ∷ []) outside.getenv outside.exists ≡ options decrypting
unfolding parse_options parse_flags read_argument read_name split_value apply_flag text_flag
    bool_flag set_text set_bool with_legacy_state with_environment str_eq
parses_decrypt = refl

parse_options-state_file_example :
    ((encrypting.using_legacy_state ≡ true) ↔ (
      (encrypting.state_given ≡ false)
      × (outside.exists default_state_file ≡ false)
      × (outside.exists legacy_state_file ≡ true)))
    × ((encrypting.using_legacy_state ≡ true) → encrypting.state_file ≡ legacy_state_file)
    × ((encrypting.state_given ≡ false)
        → (encrypting.using_legacy_state ≡ false)
        → encrypting.state_file ≡ default_state_file)
parse_options-state_file_example =
    parse_options-state_file ("-encrypt" ∷ []) outside.getenv outside.exists encrypting
      parses_encrypt

abbrev disk : Map Bytes
disk = ("config.yml", plain) ∷ []

abbrev both : Map Bytes
both = ("config.yml", plain) ∷ ("config.yml.asc", sealed) ∷ []

encrypting-Asks : Asks outside encrypting false "correct horse"
unfolding password_of str_eq
encrypting-Asks = record {
  no_version = refl;
  no_dump = refl;
  wanted = refl;
  kind = refl;
  known = refl;
}

decrypting-Asks : Asks outside decrypting true "correct horse"
unfolding password_of str_eq
decrypting-Asks = record {
  no_version = refl;
  no_dump = refl;
  wanted = refl;
  kind = refl;
  known = refl;
}

encrypts : run_app outside ("-encrypt" ∷ []) disk ≡ exited both 0
unfolding run_app convert_config password_of encrypted_config encrypt bytes_equal lookup insert
    str_eq parse_options parse_flags read_argument read_name split_value apply_flag text_flag
    bool_flag set_text set_bool with_legacy_state with_environment
encrypts = refl

decrypts : run_app outside ("--decrypt=true" ∷ []) both ≡ exited both 0
unfolding run_app convert_config password_of encrypted_config decrypt bytes_equal lookup insert
    str_eq parse_options parse_flags read_argument read_name split_value apply_flag text_flag
    bool_flag set_text set_bool with_legacy_state with_environment
decrypts = refl

config_is_there : lookup "config.yml" disk ≡ some plain
unfolding lookup str_eq
config_is_there = refl

run_app-restores_example : lookup "config.yml" both ≡ some plain
run_app-restores_example =
    run_app-restores outside outside ("-encrypt" ∷ []) ("--decrypt=true" ∷ []) encrypting decrypting
      salt iv plain "correct horse" disk both both toy-IsSound salt-IsSalt refl refl refl
      parses_encrypt parses_decrypt encrypting-Asks decrypting-Asks refl refl config_is_there
      encrypts decrypts
