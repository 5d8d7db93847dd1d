-- ===== src/Nodes/Select.antt =====
-- newRpc and guessPublicEndpointContext (seer/rpc.go).
--
-- `Rpc` is the paths of the chain registry and what the network and the packages answer: url.Parse, the client's
-- constructor, its Status call, the page of a public endpoint and the regular
-- expression on it. A client is the address that it was opened for. The clock's reading at the marking
-- of a node is an argument, by the node's address.
use tenderduty_nos.Prelude.{
  String, ◌<>◌, Bool, true, false, not, ◌&&◌, ◌||◌, if◌then◌else◌, Option, none, some, List, [],
  ◌∷◌, str_eq, length, Time, Map,
}
use tenderduty_nos.AlarmCache.{AlarmCache, get_count}
use tenderduty_nos.Config.{ChainConfig, Config, NodeConfig, ValInfo}
use tenderduty_nos.Blocks.{ChainStatus}
use tenderduty_nos.Nodes.Registry.{get_registry_url}

pub record RpcStatus : Type 0 where
  pub network : String
  pub catching_up : Bool

pub data StatusReply : Type 0 where
  status_failed : String → StatusReply
  answered : RpcStatus → StatusReply

pub record Rpc : Type 0 where
  pub parse_error : String → Option String
  pub open_error : String → Option String
  pub status : String → StatusReply
  pub cosmos_paths : Map String
  pub page : String → Option String
  pub find_endpoint : String → Option (String × String)

-- The client is `none` where the endpoint failed.
pub record Tried : Type 0 where
  pub client : Option String
  pub message : String
  pub failed : Bool
  pub syncing : Bool

abbrev refused : String → Bool → Tried
refused message syncing = record {
  client = none;
  message = message;
  failed = true;
  syncing = syncing;
}

-- The tests on a status.
unfoldable pub judge : ChainConfig → String → RpcStatus → Tried
judge cc url s =
    if not (str_eq s.network cc.chain_id)
    then refused
        (("chain id " <> s.network)
          <> (" on " <> url)
          <> (" does not match, expected " <> cc.chain_id)
          <> ", skipping")
        false
    else if s.catching_up
    then refused ("🐢 node is not synced, skipping " <> url) true
    else record { client = some url; message = ""; failed = false; syncing = false }

abbrev trouble : String → ChainConfig → String → String → String
trouble what cc url e = what <> (" for " <> cc.name) <> (": (" <> url) <> (") " <> e)

unfoldable pub try_url : Rpc → ChainConfig → String → Tried
unfolding judge
try_url r cc url = elim (r.parse_error url) [
  | some e ↦ refused (("❌ could not parse url " <> cc.name) <> (": (" <> url) <> (") " <> e)) false
  | none ↦ elim (r.open_error url) [
    | some e ↦ refused (trouble "❌ could not connect client" cc url e) false
    | none ↦ elim (r.status url) [
      | status_failed e ↦ refused (trouble "❌ could not get status" cc url e) false
      | answered s ↦ judge cc url s
    ]
  ]
]

unfoldable pub mark_node : Time → String → Bool → NodeConfig → NodeConfig
mark_node now message syncing n =
    let n' = if n.down then n else record n { down = true; down_since = now } in
    record n' { syncing = syncing; last_msg = message }

unfoldable pub any_up : List NodeConfig → Bool
any_up [] = false
any_up (n ∷ ns) = not n.down || any_up ns

-- The loop over the endpoints: the nodes after it, and the client if one was found.
unfoldable pub select_node :
    Rpc → (String → Time) → ChainConfig → Bool → List NodeConfig → List NodeConfig × Option String
unfolding try_url mark_node
select_node r now cc any_working [] = ([], none)
select_node r now cc any_working (n ∷ ns) =
    let (rest, found) = select_node r now cc any_working ns in
    let tried = try_url r cc n.url in
    if any_working && n.down
    then (n ∷ rest, found)
    else if tried.failed
    then (mark_node (now n.url) tried.message tried.syncing n ∷ rest, found)
    else (n ∷ ns, tried.client)

unfoldable pub guess_public_endpoint : Rpc → String → String
guess_public_endpoint r u = elim (r.page u) [
  | none ↦ u
  | some body ↦ elim (r.find_endpoint body) [
    | none ↦ u
    | some (host, port) ↦
        if not (str_eq port "") && not (str_eq port ":443")
        then "http://" <> (host <> port)
        else "https://" <> (host <> ":443")
  ]
]

-- The public endpoint, where the chain may use one, the registry has one and it serves.
unfoldable pub fall_back : Rpc → ChainConfig → Option String
unfolding try_url guess_public_endpoint get_registry_url
fall_back r cc =
    if not cc.public_fallback then none else elim (get_registry_url r.cosmos_paths cc.chain_id) [
      | none ↦ none
      | some url ↦
          let tried = try_url r cc (guess_public_endpoint r url) in
          if tried.failed then none else tried.client
    ]

abbrev no_info : ValInfo
no_info = record {
  moniker = "";
  bonded = false;
  jailed = false;
  tombstoned = false;
  missed = 0;
  window = 0;
  conspub = [];
  valcons = "";
}

abbrev info_or_none : Option ValInfo → ValInfo
info_or_none none = no_info
info_or_none (some v) = v

-- The end of newRpc where no endpoint serves: the chain and the status for the dashboard.
unfoldable pub give_up : Config → AlarmCache → ChainConfig → ChainConfig × List ChainStatus
give_up td alarms cc =
    let v = info_or_none cc.val_info in
    let active = get_count alarms cc.name in
    let error = "no usable RPC endpoints available for " <> cc.chain_id in
    let status : ChainStatus = record {
      msg_type = "status";
      name = cc.name;
      chain_id = cc.chain_id;
      moniker = v.moniker;
      bonded = v.bonded;
      jailed = v.jailed;
      tombstoned = v.tombstoned;
      missed = v.missed;
      window = v.window;
      nodes = length cc.nodes;
      healthy_nodes = 0;
      active_alerts = active;
      height = 0;
      last_error = error;
      blocks = cc.blocks_results;
    } in
    (
      record cc { no_nodes = true; active_alerts = active; last_error = error },
      if td.enable_dash then status ∷ [] else [],
    )

pub record Connected : Type 0 where
  pub cc : ChainConfig
  pub statuses : List ChainStatus
  pub error : Option String

abbrev use_client : String → ChainConfig → Connected
use_client url cc = record {
  cc = record cc { client = some url; no_nodes = false };
  statuses = [];
  error = none;
}

unfoldable pub new_rpc : Rpc → (String → Time) → Config → AlarmCache → ChainConfig → Connected
unfolding select_node any_up fall_back give_up
new_rpc r now td alarms cc =
    let (nodes, found) = select_node r now cc (any_up cc.nodes) cc.nodes in
    let cc' = record cc { nodes = nodes } in
    elim found [
      | some url ↦ use_client url cc'
      | none ↦ elim (fall_back r cc') [
        | some url ↦ use_client url cc'
        | none ↦
            let (cc'', statuses) = give_up td alarms cc' in
            record {
              cc = cc'';
              statuses = statuses;
              error = some ("no usable endpoints available for " <> cc.chain_id);
            }
      ]
    ]
