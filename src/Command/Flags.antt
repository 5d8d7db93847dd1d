-- ===== src/Command/Flags.antt =====
-- parseOptions and legacyInvocationWorkingDirectory (main.go). The flag package is written out as far as
-- parseOptions uses it: its errors are one answer, and its messages are not modelled.
use Prim.Native.String.{[], ◌∷◌}
use Prim.Native.Char.{code}
use mathlib.Core.List.{[] as []ᴸ, ◌∷◌ as ◌∷ᴸ◌}
use tenderduty_nos.Prelude.{
  String, Bool, true, false, not, ◌&&◌, ◌||◌, if◌then◌else◌, ◌==◌, Option, none, some, str_eq, List,
}
use tenderduty_nos.Loading.{has_prefix}

abbrev pub default_state_file : String
default_state_file = ".nosnode-seer-state.json"

abbrev pub legacy_state_file : String
legacy_state_file = ".tenderduty-state.json"

abbrev pub canonical_container_directory : String
canonical_container_directory = "/var/lib/nosnode-seer"

abbrev pub legacy_container_directory : String
legacy_container_directory = "/var/lib/tenderduty"

-- `state_given` is whether `flags.Visit` finds the flag `state`.
pub record Options : Type 0 where
  pub config_file : String
  pub chain_config_directory : String
  pub state_file : String
  pub encrypted_file : String
  pub password : String
  pub dump_config : Bool
  pub encrypt_config : Bool
  pub decrypt_config : Bool
  pub show_version : Bool
  pub using_legacy_state : Bool
  pub state_given : Bool

abbrev pub default_options : Options
default_options = record {
  config_file = "config.yml";
  chain_config_directory = "chains.d";
  state_file = default_state_file;
  encrypted_file = "config.yml.asc";
  password = "";
  dump_config = false;
  encrypt_config = false;
  decrypt_config = false;
  show_version = false;
  using_legacy_state = false;
  state_given = false;
}

pub data Parsed : Type 0 where
  options : Options → Parsed
  help bad : Parsed

-- `strconv.ParseBool`
unfoldable pub parse_bool : String → Option Bool
parse_bool s =
    if str_eq s "1"
      || (str_eq s "t"
          || (str_eq s "T" || (str_eq s "true" || (str_eq s "TRUE" || str_eq s "True"))))
    then some true
    else if str_eq s "0"
        || (str_eq s "f"
            || (str_eq s "F" || (str_eq s "false" || (str_eq s "FALSE" || str_eq s "False"))))
    then some false
    else none

-- The name and, after the first `=`, the value; a name has a character at least.
unfoldable pub split_value : String → String × Option String
split_value [] = ("", none)
split_value (c ∷ s) =
    let (name, value) = split_value s in if code c == 61 then ("", some s) else (c ∷ name, value)

-- An argument: the end of the flags, or a flag without its dashes.
pub data Argument : Type 0 where
  last malformed : Argument
  flag : String → Option String → Argument

unfoldable pub read_name : String → Argument
unfolding split_value
read_name [] = malformed
read_name (c ∷ s) =
    if code c == 45 || code c == 61
    then malformed
    else let (name, value) = split_value (c ∷ s) in flag name value

unfoldable pub read_argument : String → Argument
unfolding read_name
read_argument [] = last
read_argument (c ∷ []) = last
read_argument (c ∷ (d ∷ s)) =
    if not (code c == 45)
    then last
    else if not (code d == 45)
    then read_name (d ∷ s)
    else if str_eq s ""
    then last
    else read_name s

abbrev pub Setter : Type 0
Setter = Options → String → Options

abbrev set_state : Setter
set_state o v = record o { state_file = v; state_given = true }

unfoldable pub text_flag : String → Option Setter
text_flag name =
    if str_eq name "f"
    then some (λ o v. record o { config_file = v })
    else if str_eq name "encrypted-config"
    then some (λ o v. record o { encrypted_file = v })
    else if str_eq name "password"
    then some (λ o v. record o { password = v })
    else if str_eq name "state"
    then some set_state
    else if str_eq name "cc"
    then some (λ o v. record o { chain_config_directory = v })
    else none

unfoldable pub bool_flag : String → Option (Options → Bool → Options)
bool_flag name =
    if str_eq name "example-config"
    then some (λ o v. record o { dump_config = v })
    else if str_eq name "encrypt"
    then some (λ o v. record o { encrypt_config = v })
    else if str_eq name "decrypt"
    then some (λ o v. record o { decrypt_config = v })
    else if str_eq name "version"
    then some (λ o v. record o { show_version = v })
    else none

-- What one flag does, with its own value and the argument after it, which it may take.
pub data Applied : Type 0 where
  set_here set_next : Options → Applied
  asked_help refused : Applied

unfoldable pub set_text : Setter → Option String → Option String → Options → Applied
set_text set (some v) next o = set_here (set o v)
set_text set none (some v) o = set_next (set o v)
set_text set none none o = refused

unfoldable pub set_bool : (Options → Bool → Options) → Option String → Options → Applied
unfolding parse_bool
set_bool set none o = set_here (set o true)
set_bool set (some v) o = elim (parse_bool v) [ none ↦ refused | some b ↦ set_here (set o b) ]

unfoldable pub apply_flag : String → Option String → Option String → Options → Applied
unfolding text_flag bool_flag set_text set_bool
apply_flag name value next o = elim (text_flag name) [
  | some set ↦ set_text set value next o
  | none ↦ elim (bool_flag name) [
    | none ↦ if str_eq name "help" || str_eq name "h" then asked_help else refused
    | some set ↦ set_bool set value o
  ]
]

-- `flags.Parse`
unfoldable pub parse_flags : List String → Options → Parsed
unfolding read_argument apply_flag
parse_flags []ᴸ o = options o
parse_flags (arg ∷ᴸ []ᴸ) o = elim (read_argument arg) [
  | last ↦ options o
  | malformed ↦ bad
  | flag name value ↦ elim (apply_flag name value none o) [
    | set_here o' ↦ options o'
    | set_next o' ↦ options o'
    | asked_help ↦ help
    | refused ↦ bad
  ]
]
parse_flags (arg ∷ᴸ (next ∷ᴸ args)) o = elim (read_argument arg) [
  | last ↦ options o
  | malformed ↦ bad
  | flag name value ↦ elim (apply_flag name value (some next) o) [
    | set_here o' ↦ parse_flags (next ∷ᴸ args) o'
    | set_next o' ↦ parse_flags args o'
    | asked_help ↦ help
    | refused ↦ bad
  ]
]

-- The old state file, where the flag is not given and only the old file exists.
unfoldable pub with_legacy_state : (String → Bool) → Options → Options
with_legacy_state exists o =
    if not o.state_given && (not (exists default_state_file) && exists legacy_state_file)
    then record o { state_file = legacy_state_file; using_legacy_state = true }
    else o

-- CONFIG stands in for the default file, and PASSWORD wins over the flag.
unfoldable pub with_environment : (String → String) → Options → Options
with_environment getenv o =
    let o' =
      if str_eq o.config_file "config.yml" && not (str_eq (getenv "CONFIG") "")
      then record o { config_file = getenv "CONFIG" }
      else o in
    if not (str_eq (getenv "PASSWORD") "") then record o' { password = getenv "PASSWORD" } else o'

unfoldable pub parse_options : List String → (String → String) → (String → Bool) → Parsed
unfolding parse_flags with_legacy_state with_environment
parse_options args getenv exists = elim (parse_flags args default_options) [
  | help ↦ help
  | bad ↦ bad
  | options o ↦ options (with_environment getenv (with_legacy_state exists o))
]

-- An argument that gives the configuration file.
unfoldable pub names_config : List String → Bool
unfolding has_prefix
names_config []ᴸ = false
names_config (arg ∷ᴸ args) =
    (str_eq arg "-f" || (str_eq arg "--f" || (has_prefix arg "-f=" || has_prefix arg "--f=")))
    || names_config args

-- `base` is filepath.Base of the program's name. No directory is the empty text.
unfoldable pub legacy_invocation_working_directory :
    String → String → List String → String → (String → Bool) → String
unfolding names_config
legacy_invocation_working_directory base current args config exists =
    if str_eq base "tenderduty"
    then (if exists legacy_container_directory then legacy_container_directory else "")
    else if not (str_eq current canonical_container_directory)
        || (not (str_eq config "") || exists "config.yml")
    then ""
    else if names_config args
    then ""
    else if exists "/var/lib/tenderduty/config.yml"
    then legacy_container_directory
    else ""
