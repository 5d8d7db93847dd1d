-- ===== src/Nodes/Chosen.antt =====
-- Which endpoint newRpc settles on, and what it leaves behind (seer/rpc.go).
use tenderduty_nos.Prelude.{
  ◌<>◌, String, Bool, true, false, ◌&&◌, if◌then◌else◌, ◌≡◌, refl, ◌↔◌, ◌⊎◌, inl, inr, arith,
  Option, none, some, List, [], ◌∷◌, Time, Bool-cases, Option-cases, All, str_eq,
}
use tenderduty_nos.AlarmCache.{AlarmCache}
use tenderduty_nos.Config.{ChainConfig, Config, NodeConfig}
use tenderduty_nos.Nodes.Select.{
  Rpc, RpcStatus, StatusReply, status_failed, answered, judge, try_url, mark_node, any_up,
  select_node, fall_back, give_up, new_rpc, Connected,
}

-- An endpoint that may be monitored: it can be reached, and is a synced node of the chain.
abbrev pub IsUsable : Rpc → ChainConfig → String → Type 0
IsUsable r chain url =
    (r.parse_error url ≡ none)
    × (r.open_error url ≡ none)
    × ((s : RpcStatus) × (r.status url ≡ answered s)
        × (str_eq s.network chain.chain_id ≡ true)
        × (s.catching_up ≡ false))

-- The first endpoint that serves. A node that is down is left out while another is up.
unfoldable pub first_usable : Rpc → ChainConfig → Bool → List NodeConfig → Option String
first_usable r chain any_working [] = none
first_usable r chain any_working (n ∷ ns) =
    let rest = first_usable r chain any_working ns in
    if any_working && n.down
    then rest
    else if (try_url r chain n.url).failed
    then rest
    else some n.url

StatusReply-cases :
    (x : StatusReply)
    → ((e : String) × (x ≡ status_failed e)) ⊎ ((s : RpcStatus) × (x ≡ answered s))
StatusReply-cases (status_failed e) = inl (e, refl)
StatusReply-cases (answered s) = inr (s, refl)

try_url-client :
    (r : Rpc) (chain : ChainConfig) (url : String)
    → (try_url r chain url).failed ≡ false
    → (try_url r chain url).client ≡ some url
unfolding try_url judge
try_url-client r chain url h = ground arith

select_node-client :
    (r : Rpc) (now : String → Time) (chain : ChainConfig) (any_working : Bool)
    (ns : List NodeConfig)
    → (select_node r now chain any_working ns).1 ≡ first_usable r chain any_working ns
unfolding select_node first_usable
select_node-client r now chain any_working [] = refl
select_node-client r now chain any_working (n ∷ ns) =
    let ih = select_node-client r now chain any_working ns in
    elim (Bool-cases (try_url r chain n.url).failed) [
      | inl e ↦ ground (arith, ih, e)
      | inr e ↦ ground (arith, ih, e, try_url-client r chain n.url e)
    ]

select_node-down :
    (r : Rpc) (now : String → Time) (chain : ChainConfig) (any_working : Bool)
    (ns : List NodeConfig)
    → first_usable r chain any_working ns ≡ none
    → All (λ n. n.down ≡ true) (select_node r now chain any_working ns).0
unfolding select_node first_usable mark_node
select_node-down r now chain any_working [] h = tt
select_node-down r now chain any_working (n ∷ ns) h =
    let ih = select_node-down r now chain any_working ns in
    elim (Bool-cases (any_working && n.down)) [
      | inl e ↦ rw e (ground (arith, e), ih (ground (arith, h, e)))
      | inr e ↦ elim (Bool-cases (try_url r chain n.url).failed) [
        | inl f ↦ rw (e, f) (ground arith, ih (ground (arith, h, e, f)))
        | inr f ↦ absurd (ground (arith, h, e, f))
      ]
    ]

fall_back-nodes :
    (r : Rpc) (chain : ChainConfig) (ns : List NodeConfig)
    → fall_back r (record chain { nodes = ns }) ≡ fall_back r chain
unfolding fall_back try_url judge
fall_back-nodes r chain ns = refl

-- The client that newRpc is to settle on.
unfoldable pub best_client : Rpc → ChainConfig → Option String
unfolding first_usable
best_client r chain = elim (first_usable r chain (any_up chain.nodes) chain.nodes) [
  | some url ↦ some url
  | none ↦ fall_back r chain
]

-- A chain after a connection to `url`, and after none.
abbrev pub IsServed : Option String → ChainConfig → Connected → Type 0
IsServed (some url) chain c = (c.cc.client ≡ some url) × (c.error ≡ none) × (c.cc.no_nodes ≡ false)
IsServed none chain c =
    (c.cc.client ≡ chain.client)
    × (c.error ≡ some ("no usable endpoints available for " <> chain.chain_id))
    × (c.cc.no_nodes ≡ true)

-- newRpc settles on the first endpoint that serves, or else on the public one. Where there is one it
-- becomes the client and no error is returned; where there is none the client stays, an error is
-- returned, and the chain is marked as having no nodes.
pub new_rpc-best_client :
    (r : Rpc) (now : String → Time) (td : Config) (alarms : AlarmCache) (chain : ChainConfig)
    → IsServed (best_client r chain) chain (new_rpc r now td alarms chain)
unfolding new_rpc best_client give_up
new_rpc-best_client r now td alarms chain =
    let ns = (select_node r now chain (any_up chain.nodes) chain.nodes).0 in
    let e = select_node-client r now chain (any_up chain.nodes) chain.nodes in
    let f = fall_back-nodes r chain ns in
    elim (Option-cases (first_usable r chain (any_up chain.nodes) chain.nodes)) [
      | inr (url, g) ↦ rw (new_rpc, e, best_client, g) (refl, refl, refl)
      | inl g ↦ elim (Option-cases (fall_back r chain)) [
        | inr (url, h) ↦ rw (new_rpc, e, best_client, g, f, h) (refl, refl, refl)
        | inl h ↦ rw (new_rpc, e, best_client, g, f, h) (refl, refl, refl)
      ]
    ]

-- Where newRpc finds nothing to connect to, it leaves every configured node marked as down.
pub new_rpc-down :
    (r : Rpc) (now : String → Time) (td : Config) (alarms : AlarmCache) (chain : ChainConfig)
    → best_client r chain ≡ none
    → All (λ n. n.down ≡ true) (new_rpc r now td alarms chain).cc.nodes
unfolding new_rpc best_client give_up
new_rpc-down r now td alarms chain h =
    let e = select_node-client r now chain (any_up chain.nodes) chain.nodes in
    let f = fall_back-nodes r chain (select_node r now chain (any_up chain.nodes) chain.nodes).0 in
    elim (Option-cases (first_usable r chain (any_up chain.nodes) chain.nodes)) [
      | inr (url, g) ↦ absurd (ground (arith, h, g))
      | inl g ↦ elim (Option-cases (fall_back r chain)) [
        | inr (url, k) ↦ absurd (ground (arith, h, g, k))
        | inl k ↦
            rw (new_rpc, e, g, f, k)
              (select_node-down r now chain (any_up chain.nodes) chain.nodes g)
      ]
    ]

-- An address is taken exactly when it can be reached, and is a synced node of the chain.
pub try_url_iff :
    (r : Rpc) (chain : ChainConfig) (url : String)
    → (try_url r chain url).failed ≡ false ↔ IsUsable r chain url
unfolding try_url judge
try_url_iff r chain url = elim (StatusReply-cases (r.status url)) [
  | inl (e, g) ↦ (λ h. absurd (ground (arith, h, g)), λ u. absurd (ground (arith, u.2.1, g)))
  | inr (s, g) ↦ (
    λ h. (
      ground (arith, h, g),
      ground (arith, h, g),
      (s, g, ground (arith, h, g), ground (arith, h, g)),
    ),
    λ u. ground (arith, u.0, u.1, u.2.1, u.2.2, u.2.3),
  )
]
