-- ===== src/Loading/Load.antt =====
-- loadConfig and loadChainConfig (seer/types.go). `Source` is the network, the file system and the YAML
-- decoder: a file that cannot be opened, measured or read is the same failure. The directory's entries
-- are those that os.ReadDir gives, error or not. The password's removal from memory is not modelled.
use Prim.Native.String.{[], ◌∷◌}
use Prim.Native.Char.{code}
use text.Mathlib.Text.{starts_with}
use tenderduty_nos.Prelude.{
  String, Bool, false, not, ◌||◌, if◌then◌else◌, ◌==◌, some, str_eq, Map, insert, Reply, got,
  failed, Time, ◌>>=◌, List,
}
use mathlib.Core.List.{[] as []ᴸ, ◌∷◌ as ◌∷ᴸ◌}
use tenderduty_nos.AlarmCache.{AlarmCache, new_alarm_cache}
use tenderduty_nos.Config.{ChainConfig, Config}
use tenderduty_nos.Encryption.{Bytes, Crypto, decrypt}
use tenderduty_nos.SavedState.{
  Json, Read, LoadError, loaded, refused, load_state_with_reader, restore_saved_state,
}
use tenderduty_nos.Socket.{has_suffix}

pub record Entry : Type 0 where
  pub name : String
  pub is_dir : Bool

pub record Source : Type 0 where
  pub fetch : String → Reply Bytes
  pub read_file : String → Reply Bytes
  pub decode_config : Bytes → Reply Config
  pub decode_chain : Bytes → Reply ChainConfig
  pub read_dir : String → List Entry
  pub join : String → String → String
  pub crypto : Crypto
  pub json : Json
  pub read_state : String → Read

-- `strings.HasPrefix`
unfoldable pub has_prefix : String → String → Bool
has_prefix s prefix = starts_with s prefix

-- `strings.Split(name, ".")[0]`
unfoldable pub before_dot : String → String
before_dot [] = ""
before_dot (c ∷ s) = let rest = before_dot s in if code c == 46 then "" else c ∷ rest

unfoldable pub load_chain_config : Source → String → Reply ChainConfig
load_chain_config s file = s.read_file file >>= s.decode_chain

abbrev pub is_remote : String → Bool
is_remote file = has_prefix file "http://" || has_prefix file "https://"

-- The configuration file, remote and encrypted or local.
unfoldable pub read_config : Source → String → String → Reply Config
unfolding has_prefix
read_config s file password =
    if is_remote file
    then (if str_eq password ""
        then failed "a password is required if loading a remote configuration"
        else s.fetch file >>= λ b. decrypt s.crypto b password >>= s.decode_config)
    else s.read_file file >>= s.decode_config

-- Directories and files of another kind are skipped.
unfoldable pub is_chain_file : Entry → Bool
is_chain_file entry = if entry.is_dir then false else has_suffix entry.name ".yml"

-- The loop over the directory of chain files.
unfoldable pub add_chains : Source → String → List Entry → Map ChainConfig → Reply (Map ChainConfig)
unfolding is_chain_file load_chain_config before_dot
add_chains s directory []ᴸ chains = got chains
add_chains s directory (entry ∷ᴸ entries) chains =
    if not (is_chain_file entry)
    then add_chains s directory entries chains
    else elim (load_chain_config s (s.join directory entry.name)) [
      | failed e ↦ failed e
      | got chain ↦ add_chains s directory entries (insert (before_dot entry.name) chain chains)
    ]

-- Why nothing was loaded.
pub data LoadFailure : Type 0 where
  message : String → LoadFailure
  bad_state : LoadError → LoadFailure

pub data ConfigResult : Type 0 where
  ready : Config → AlarmCache → ConfigResult
  refusal : LoadFailure → ConfigResult

-- The last part: a new alarm cache, and the durable state restored into it and the configuration.
unfoldable pub restore_state : Source → Time → String → Config → ConfigResult
unfolding load_state_with_reader restore_saved_state new_alarm_cache
restore_state s now state_file c = elim (load_state_with_reader s.json s.read_state state_file) [
  | refused e ↦ refusal (bad_state e)
  | loaded saved info ↦
      let r = restore_saved_state now (some saved) (c, new_alarm_cache) in ready r.0 r.1
]

unfoldable pub load_config : Source → Time → String → String → String → String → ConfigResult
unfolding read_config add_chains restore_state
load_config s now file state_file directory password = elim (read_config s file password) [
  | failed e ↦ refusal (message e)
  | got c ↦ elim (add_chains s directory (s.read_dir directory) c.chains) [
    | failed e ↦ refusal (message e)
    | got []ᴸ ↦ refusal (message "no chains configured")
    | got (x ∷ᴸ chains) ↦ restore_state s now state_file (record c { chains = x ∷ᴸ chains })
  ]
]
