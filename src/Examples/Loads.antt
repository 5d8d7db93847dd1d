-- ===== src/Examples/Loads.antt =====
-- What is read at a start.
use tenderduty_nos.Prelude.{
  ◌≤◌, ◌%◌, ◌≡◌, ◌≢◌, ◌⊎◌, refl, String, ◌<>◌, true, false, none, some, [], ◌∷◌, got, str_eq,
  length, Map, lookup, insert,
}
use tenderduty_nos.AlarmCache.{new_alarm_cache}
use tenderduty_nos.Config.{ChainConfig, Config}
use tenderduty_nos.Encryption.{Bytes, minimum_size, decrypt, bytes_equal}
use tenderduty_nos.Encryption.Authentic.{IsSigned}
use tenderduty_nos.SavedState.{
  Read, not_exist, syntax, eof, load_state_with_reader, load_failure, read_state_candidate,
  restore_saved_state, restore_blocks, restore_alarms,
}
use tenderduty_nos.Socket.{has_suffix}
use tenderduty_nos.Loading.{
  Source, has_prefix, is_remote, before_dot, is_chain_file, load_chain_config, read_config,
  add_chains, restore_state, load_config, ready,
}
use tenderduty_nos.Loading.Remote.{load_config-IsSigned, load_config-encrypt}
use tenderduty_nos.Loading.Chains.{HasNone, IsFrom, add_chains-lookup}
use tenderduty_nos.Examples.Fixtures.{noon, chain, settings}
use tenderduty_nos.Examples.Secrets.{
  toy, toy-IsSound, salt, salt-IsSalt, iv, plain, sealed, encrypt_runs,
}

-- No state file yet.
abbrev source : Source
source = record {
  fetch = λ url. got sealed;
  read_file = λ file. got plain;
  decode_config = λ b. got settings;
  decode_chain = λ b. got chain;
  read_dir = λ directory. record { name = "juno.yml"; is_dir = false } ∷ [];
  join = λ directory name. directory <> name;
  crypto = toy;
  json = record {
    is_blank = λ t. true;
    first = λ t. syntax;
    trailing = λ t. eof;
    encode = λ d. none;
  };
  read_state = λ path. Read.failed not_exist;
}

abbrev url : String
url = "https://a/config.asc"

url_remote : is_remote url ≡ true
unfolding has_prefix
url_remote = refl

file_near : is_remote "config.yml" ≡ false
unfolding has_prefix
file_near = refl

horse_filled : str_eq "correct horse" "" ≡ false
unfolding str_eq
horse_filled = refl

load_config-encrypt_example :
    load_config source noon url "state" "chains.d" "correct horse"
    ≡ load_config source noon "config.yml" "state" "chains.d" "correct horse"
load_config-encrypt_example =
    load_config-encrypt source noon url "config.yml" "state" "chains.d" "correct horse" salt iv
      plain sealed toy-IsSound salt-IsSalt refl encrypt_runs url_remote file_near horse_filled refl
      refl

abbrev loaded_chains : Map ChainConfig
loaded_chains = ("osmosis", chain) ∷ ("juno", chain) ∷ []

adds : add_chains source "chains.d" (source.read_dir "chains.d") settings.chains ≡ got loaded_chains
unfolding add_chains is_chain_file load_chain_config before_dot has_suffix str_eq insert
adds = refl

add_chains-lookup_example :
    (HasNone "juno" (source.read_dir "chains.d")
      × (lookup "juno" loaded_chains ≡ lookup "juno" settings.chains))
    ⊎ ((c : ChainConfig) × IsFrom source "chains.d" (source.read_dir "chains.d") "juno" c
        × (lookup "juno" loaded_chains ≡ some c))
add_chains-lookup_example =
    add_chains-lookup source "chains.d" (source.read_dir "chains.d") settings.chains loaded_chains
      "juno" adds

abbrev loaded_config : Config
loaded_config = record settings { chains = loaded_chains }

loads :
    load_config source noon url "state" "chains.d" "correct horse"
    ≡ ready loaded_config new_alarm_cache
unfolding load_config read_config restore_state decrypt bytes_equal has_prefix str_eq add_chains
    is_chain_file load_chain_config before_dot has_suffix insert load_state_with_reader
    read_state_candidate load_failure restore_saved_state new_alarm_cache restore_blocks
    restore_alarms
loads = refl

load_config-IsSigned_example :
    ◌≢◌ {A = String} "correct horse" ""
    × (b : Bytes) × (text : Bytes) × (source.fetch url ≡ got b)
    × (source.crypto.decode b ≡ got text)
    × (minimum_size ≤ length text)
    × (length text % 16 ≡ 0)
    × IsSigned source.crypto "correct horse" text
load_config-IsSigned_example =
    load_config-IsSigned source noon url "state" "chains.d" "correct horse" loaded_config
      new_alarm_cache url_remote loads
