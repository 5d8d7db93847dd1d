-- ===== src/Validator/Adapter.antt =====
-- The queries of seer/cometbft_adapter.go over the node's client and the packages that encode and decode,
-- which are `Node`: its abci_query answers `none` where there is no response or no value in it.
use tenderduty_nos.Prelude.{
  ℕ, String, ◌<>◌, Bool, true, false, if◌then◌else◌, Option, none, some, List, [], ◌∷◌, str_eq,
  contains, Reply, got, failed, ◌>>=◌, Map,
}
use tenderduty_nos.Nodes.{StatusReply, answered, status_failed}
use tenderduty_nos.Validator.Refresh.{ValidatorRecord, SigningInfo, Queries}

abbrev pub Payload : Type 0
Payload = List ℕ

pub data BondStatus : Type 0 where
  unspecified unbonded unbonding bonded : BondStatus

pub record PublicKey : Type 0 where
  pub type_url : String
  pub key : Payload

pub record StakingValidator : Type 0 where
  pub consensus_pubkey : Option PublicKey
  pub moniker : String
  pub jailed : Bool
  pub status : BondStatus

pub record NodeStatus : Type 0 where
  pub network : String
  pub catching_up : Bool

pub record Node : Type 0 where
  pub status : Reply (Option NodeStatus)
  pub abci_query : String → Payload → Reply (Option Payload)
  pub decode_bech32 : String → Reply (String × Payload)
  pub marshal_validator : String → Reply Payload
  pub unmarshal_validator : Payload → Reply StakingValidator
  pub ed25519_address : Payload → Reply Payload
  pub secp256k1_address : Payload → Reply Payload
  pub marshal_signing : String → Reply Payload
  pub unmarshal_signing : Payload → Reply SigningInfo
  pub marshal_params : Reply Payload
  pub unmarshal_params : Payload → Reply ℕ

abbrev pub staking_validator_query : String
staking_validator_query = "/cosmos.staking.v1beta1.Query/Validator"

abbrev pub signing_info_query : String
signing_info_query = "/cosmos.slashing.v1beta1.Query/SigningInfo"

abbrev pub slashing_params_query : String
slashing_params_query = "/cosmos.slashing.v1beta1.Query/Params"

abbrev pub ed25519_type : String
ed25519_type = "/cosmos.crypto.ed25519.PubKey"

abbrev pub secp256k1_type : String
secp256k1_type = "/cosmos.crypto.secp256k1.PubKey"

abbrev filled : String → Option Payload → Reply Payload
filled message none = failed message
filled message (some value) = got value

unfoldable pub query_status : Node → StatusReply
query_status n = elim n.status [
  | failed e ↦ status_failed e
  | got none ↦ status_failed "got empty status response"
  | got (some s) ↦ answered (record { network = s.network; catching_up = s.catching_up })
]

-- The address of a key, empty for a type that is not known.
unfoldable pub key_address : Node → PublicKey → Reply Payload
key_address n k =
    if str_eq k.type_url ed25519_type
    then n.ed25519_address k.key
    else if str_eq k.type_url secp256k1_type
    then n.secp256k1_address k.key
    else got []

abbrev pub is_bonded : BondStatus → Bool
is_bonded bonded = true
is_bonded _ = false

unfoldable pub record_of : String → StakingValidator → Payload → Reply ValidatorRecord
record_of address v [] = failed ("could not get pubkey for" <> address)
record_of address v (b ∷ bs) = got (record {
  consensus_address = b ∷ bs;
  moniker = v.moniker;
  jailed = v.jailed;
  bonded = is_bonded v.status;
})

-- The part of Validator for the answer of the staking module.
unfoldable pub read_validator : Node → String → StakingValidator → Reply ValidatorRecord
unfolding key_address record_of
read_validator n address v = elim v.consensus_pubkey [
  | none ↦ failed ("got invalid consensus pubkey for " <> address)
  | some k ↦ key_address n k >>= record_of address v
]

unfoldable pub query_validator : Node → String → Reply ValidatorRecord
unfolding read_validator
query_validator n address =
    if contains address "valcons"
    then elim (n.decode_bech32 address) [
      | failed e ↦ failed ("could not decode and convert your address" <> address)
      | got (prefix, decoded) ↦
          got (record {
            consensus_address = decoded;
            moniker = address;
            jailed = false;
            bonded = true;
          })
    ]
    else n.marshal_validator address >>= λ payload.
        n.abci_query staking_validator_query payload >>= λ response.
        filled ("could not find validator " <> address) response >>= λ value.
        n.unmarshal_validator value >>= read_validator n address

unfoldable pub query_signing_info : Node → String → Reply SigningInfo
query_signing_info n address = n.marshal_signing address >>= λ payload.
    n.abci_query signing_info_query payload >>= λ response.
    filled "could not query validator slashing status, got empty response" response >>= λ value.
    n.unmarshal_signing value

unfoldable pub query_slashing_params : Node → Reply ℕ
query_slashing_params n = n.marshal_params >>= λ payload.
    n.abci_query slashing_params_query payload >>= λ response.
    filled "🛑 could not query slashing params, got empty response" response >>= λ value.
    n.unmarshal_params value

-- The client of the refresh, made of the adapter over the node of each address.
unfoldable pub adapter_queries :
    (String → Node)
    → (String → String → List String)
    → (String → List ℕ → Reply String)
    → Map String
    → Queries
unfolding query_validator query_signing_info query_slashing_params
adapter_queries node split encode prefixes = record {
  validator = λ client address. query_validator (node client) address;
  signing_info = λ client address. query_signing_info (node client) address;
  slashing_params = λ client. query_slashing_params (node client);
  split = split;
  encode = encode;
  prefixes = prefixes;
}
