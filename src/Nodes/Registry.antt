-- ===== src/Nodes/Registry.antt =====
-- The paths of the chain registry, which lead to public endpoints (seer/chain-details.go). `fetch` is the
-- download with its decoding by encoding/json.
use tenderduty_nos.Prelude.{
  String, ◌<>◌, Option, none, some, List, [], ◌∷◌, if◌then◌else◌, str_eq, Map, lookup, insert,
  Reply, got, failed,
}

-- The paths that the program starts with.
abbrev pub cosmos_paths : Map String
cosmos_paths =
    ("Antora", "idep")
    ∷ ("Oraichain", "oraichain")
    ∷ ("agoric-3", "agoric")
    ∷ ("akashnet-2", "akash")
    ∷ ("arkh", "arkh")
    ∷ ("axelar-dojo-1", "axelar")
    ∷ ("bitcanna-1", "bitcanna")
    ∷ ("bitsong-2b", "bitsong")
    ∷ ("bostrom", "bostrom")
    ∷ ("carbon-1", "carbon")
    ∷ ("cerberus-chain-1", "cerberus")
    ∷ ("cheqd-mainnet-1", "cheqd")
    ∷ ("chihuahua-1", "chihuahua")
    ∷ ("colosseum-1", "firmachain")
    ∷ ("columbus-5", "terra")
    ∷ ("comdex-1", "comdex")
    ∷ ("core-1", "persistence")
    ∷ ("cosmoshub-4", "cosmoshub")
    ∷ ("crescent-1", "crescent")
    ∷ ("cronosmainnet_25-1", "cronos")
    ∷ ("crypto-org-chain-mainnet-1", "cryptoorgchain")
    ∷ ("cudos-1", "cudos")
    ∷ ("darchub", "konstellation")
    ∷ ("desmos-mainnet", "desmos")
    ∷ ("dig-1", "dig")
    ∷ ("echelon_3000-3", "echelon")
    ∷ ("emoney-3", "emoney")
    ∷ ("evmos_9001-2", "evmos")
    ∷ ("fetchhub-4", "fetchhub")
    ∷ ("galaxy-1", "galaxy")
    ∷ ("genesis_29-2", "genesisl1")
    ∷ ("gravity-bridge-3", "gravitybridge")
    ∷ ("impacthub-3", "impacthub")
    ∷ ("injective-1", "injective")
    ∷ ("iov-mainnet-ibc", "starname")
    ∷ ("irishub-1", "irisnet")
    ∷ ("juno-1", "juno")
    ∷ ("kava_2222-10", "kava")
    ∷ ("kichain-2", "kichain")
    ∷ ("laozi-mainnet", "bandchain")
    ∷ ("likecoin-mainnet-2", "likecoin")
    ∷ ("logos_7002-1", "logos")
    ∷ ("lum-network-1", "lumnetwork")
    ∷ ("mainnet-3", "decentr")
    ∷ ("mantle-1", "assetmantle")
    ∷ ("meme-1", "meme")
    ∷ ("microtick-1", "microtick")
    ∷ ("morocco-1", "chronicnetwork")
    ∷ ("mythos_7001-1", "mythos")
    ∷ ("nomic-stakenet-2", "nomic")
    ∷ ("octa", "octa")
    ∷ ("odin-mainnet-freya", "odin")
    ∷ ("osmosis-1", "osmosis")
    ∷ ("panacea-3", "panacea")
    ∷ ("phoenix-1", "terra2")
    ∷ ("pio-mainnet-1", "provenance")
    ∷ ("regen-1", "regen")
    ∷ ("secret-4", "secretnetwork")
    ∷ ("sentinelhub-2", "sentinel")
    ∷ ("shentu-2.2", "shentu")
    ∷ ("sifchain-1", "sifchain")
    ∷ ("sommelier-3", "sommelier")
    ∷ ("stargaze-1", "stargaze")
    ∷ ("thorchain-mainnet-v1", "thorchain")
    ∷ ("titan-1", "rizon")
    ∷ ("umee-1", "umee")
    ∷ ("vidulum-1", "vidulum")
    ∷ []

abbrev pub public_rpc_url : String
public_rpc_url = "https://rpc.cosmos.directory:443/"

pub record RegistryChain : Type 0 where
  pub path : String
  pub chain_id : String

unfoldable pub add_paths : List RegistryChain → Map String → Map String
add_paths [] paths = paths
add_paths (c ∷ cs) paths = add_paths cs (insert c.chain_id c.path paths)

-- The paths afterwards, and the error.
unfoldable pub refresh_registry :
    Reply (List RegistryChain) → Map String → Map String × Option String
unfolding add_paths
refresh_registry fetch paths = elim fetch [
  | failed e ↦ (paths, some e)
  | got [] ↦ (paths, some "response had no chains")
  | got (c ∷ cs) ↦ (add_paths (c ∷ cs) paths, none)
]

-- `none` is the answer `false`; a path that is missing or empty gives no address.
unfoldable pub get_registry_url : Map String → String → Option String
get_registry_url paths chain_id = elim (lookup chain_id paths) [
  | none ↦ none
  | some path ↦ if str_eq path "" then none else some (public_rpc_url <> path)
]
