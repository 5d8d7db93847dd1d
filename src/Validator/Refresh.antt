-- ===== src/Validator/Refresh.antt =====
-- GetValInfo and publishValidatorInfo (seer/validator.go, seer/runtime_state.go), and getAltPrefix
-- (seer/chain-details.go).
--
-- `Queries` is the RPC client's answers, strings.Split and the address encoder. A consensus address has
-- 20 bytes or more, as the source's slice expression requires.
use tenderduty_nos.Prelude.{
  Reply, got, failed, ℕ, String, ◌<>◌, Bool, not, if◌then◌else◌, ◌==◌, Option, none, some, List, [],
  ◌∷◌, length, take, Map, lookup, str_eq, contains,
}
use tenderduty_nos.Config.{ChainConfig, Config, ValInfo}
use tenderduty_nos.Metrics.{MetricType, count, PromUpdate, mk_update}

pub record ValidatorRecord : Type 0 where
  pub consensus_address : List ℕ
  pub moniker : String
  pub jailed : Bool
  pub bonded : Bool

pub record SigningInfo : Type 0 where
  pub tombstoned : Bool
  pub missed_blocks : ℕ

pub record Queries : Type 0 where
  pub validator : String → String → Reply ValidatorRecord
  pub signing_info : String → String → Reply SigningInfo
  pub slashing_params : String → Reply ℕ
  pub split : String → String → List String
  pub encode : String → List ℕ → Reply String
  pub prefixes : Map String

unfoldable pub get_alt_prefix : Queries → String → Option String
get_alt_prefix q oper = elim (q.split oper "1") [
  | [] ↦ none
  | name ∷ rest ↦ elim (lookup name q.prefixes) [
    | none ↦ none
    | some prefix ↦ if str_eq prefix "" then none else some prefix
  ]
]

-- The prefix of an operator's address, and of its consensus address.
unfoldable pub valcons_prefix : Queries → String → Option String
unfolding get_alt_prefix
valcons_prefix q address = elim (q.split address "valoper") [
  | [] ↦ get_alt_prefix q address
  | prefix ∷ rest ↦
      if length rest == 1 then some (prefix <> "valcons") else get_alt_prefix q address
]

unfoldable pub valcons_for : Queries → String → List ℕ → Reply String
unfolding valcons_prefix
valcons_for q address conspub =
    if contains address "valcons" then got address else elim (valcons_prefix q address) [
      | none ↦ failed ("❓ could not determine bech32 prefix from valoper address: " <> address)
      | some prefix ↦ q.encode prefix (take 20 conspub)
    ]

abbrev pub known_window : Option ValInfo → ℕ
known_window none = 0
known_window (some v) = v.window

-- The window is asked for once: a known one is kept.
unfoldable pub window_for : Queries → String → Option ValInfo → Reply ℕ
window_for q client current =
    if known_window current == 0 then q.slashing_params client else got (known_window current)

unfoldable pub publish_validator_info : ValInfo → Bool → ChainConfig → ChainConfig
publish_validator_info next retain chain =
    let last = if retain then chain.val_info else chain.last_val_info in
    record chain { last_val_info = last; val_info = some next }

pub record Refreshed : Type 0 where
  pub chain : ChainConfig
  pub error : Option String
  pub metrics : List PromUpdate

abbrev refused : ChainConfig → String → Refreshed
refused chain e = record { chain = chain; error = some e; metrics = [] }

unfoldable pub refresh_metrics : Config → Bool → ChainConfig → ValInfo → List PromUpdate
unfolding mk_update
refresh_metrics td first chain next =
    let sizes =
      mk_update chain MetricType.window_size (count next.window) ""
      ∷ mk_update chain MetricType.total_nodes (count (length chain.nodes)) ""
      ∷ [] in
    if not td.prom
    then []
    else mk_update chain MetricType.window_missed (count next.missed) ""
      ∷ (if first then sizes else [])

unfoldable pub get_val_info : Queries → Config → Bool → ChainConfig → Refreshed
unfolding valcons_for window_for publish_validator_info refresh_metrics
get_val_info q td first chain = elim chain.client [
  | none ↦ refused chain "nil rpc client"
  | some client ↦ elim (q.validator client chain.val_address) [
    | failed e ↦ refused chain e
    | got found ↦ elim (valcons_for q chain.val_address found.consensus_address) [
      | failed e ↦ refused chain e
      | got valcons ↦ elim (q.signing_info client valcons) [
        | failed e ↦ refused chain e
        | got signing ↦ elim (window_for q client chain.val_info) [
          | failed e ↦ refused chain e
          | got window ↦
              let next : ValInfo = record {
                moniker = found.moniker;
                bonded = found.bonded;
                jailed = found.jailed;
                tombstoned = signing.tombstoned;
                missed = signing.missed_blocks;
                window = window;
                conspub = found.consensus_address;
                valcons = valcons;
              } in
              let chain' = publish_validator_info next (not first) chain in
              record {
                chain = chain';
                error = none;
                metrics = refresh_metrics td first chain' next;
              }
        ]
      ]
    ]
  ]
]
