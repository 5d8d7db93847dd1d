-- ===== src/Nodes/Outage.antt =====
-- The downtime of a node over a series of probes (seer/rpc.go).
use tenderduty_nos.Prelude.{
  String, Bool, true, false, if◌then◌else◌, ◌≡◌, refl, subst, ◌∙◌, inl, inr, arith, Option, none,
  some, List, [], ◌∷◌, Time, Option-cases,
}
use tenderduty_nos.Config.{ChainConfig, NodeConfig}
use tenderduty_nos.Nodes.Select.{Rpc}
use tenderduty_nos.Nodes.Health.{diagnose, mark_healthy, mark_unhealthy, probe_node}

-- The node after a series of probes, each with the network and the clock that it met.
unfoldable pub probe_run : String → ChainConfig → List (Rpc × Time) → NodeConfig → NodeConfig
probe_run chain_name chain [] n = n
probe_run chain_name chain ((r, t) ∷ probes) n =
    probe_run chain_name chain probes (probe_node r t chain_name chain n)

-- The start of an outage after one more probe, which found `trouble` at `t`.
abbrev next_start : Option (String × Bool) → Time → Option Time → Option Time
next_start none t start = none
next_start (some trouble) t none = some t
next_start (some trouble) t (some s) = some s

-- The start of the outage that the series ends in: the first failed probe since the last good one.
unfoldable pub outage : ChainConfig → String → List (Rpc × Time) → Option Time → Option Time
outage chain url [] start = start
outage chain url ((r, t) ∷ probes) start =
    outage chain url probes (next_start (diagnose r chain url) t start)

-- What the node's fields say of an outage.
abbrev pub Agrees : Option Time → NodeConfig → Type 0
Agrees none n = n.down ≡ false
Agrees (some s) n = (n.down ≡ true) × (n.down_since ≡ s)

probe_node-fixed :
    (r : Rpc) (t : Time) (chain_name : String) (chain : ChainConfig) (n : NodeConfig)
    → ((probe_node r t chain_name chain n).url ≡ n.url)
      × ((probe_node r t chain_name chain n).alert_if_down ≡ n.alert_if_down)
unfolding probe_node mark_healthy mark_unhealthy
probe_node-fixed r t chain_name chain n = ground arith

unhealthy-Agrees :
    (t : Time) (chain_name message : String) (syncing : Bool) (n : NodeConfig) (start : Option Time)
    → n.alert_if_down ≡ true
    → Agrees start n
    → let n' = mark_unhealthy t chain_name message n in
      Agrees
        (next_start (some (message, syncing)) t start)
        (if syncing then record n' { syncing = true } else n')
unfolding mark_unhealthy
unhealthy-Agrees t chain_name message true n none a h = (ground (arith, a, h), ground (arith, a, h))
unhealthy-Agrees t chain_name message false n none a h =
    (ground (arith, a, h), ground (arith, a, h))
unhealthy-Agrees t chain_name message true n (some s) a h =
    (ground (arith, a, h.0), ground (arith, a, h.0, h.1))
unhealthy-Agrees t chain_name message false n (some s) a h =
    (ground (arith, a, h.0), ground (arith, a, h.0, h.1))

probe_node-Agrees :
    (r : Rpc) (t : Time) (chain_name : String) (chain : ChainConfig) (n : NodeConfig)
    (start : Option Time)
    → n.alert_if_down ≡ true
    → Agrees start n
    → Agrees (next_start (diagnose r chain n.url) t start) (probe_node r t chain_name chain n)
unfolding probe_node mark_healthy mark_unhealthy
probe_node-Agrees r t chain_name chain n start a h = elim (Option-cases (diagnose r chain n.url)) [
  | inl e ↦ rw (probe_node, e) refl
  | inr ((message, syncing), e) ↦
      rw (probe_node, e) (unhealthy-Agrees t chain_name message syncing n start a h)
]

probe_run-Agrees_from :
    (chain_name : String) (chain : ChainConfig) (probes : List (Rpc × Time)) (n : NodeConfig)
    (start : Option Time)
    → n.alert_if_down ≡ true
    → Agrees start n
    → Agrees (outage chain n.url probes start) (probe_run chain_name chain probes n)
unfolding probe_run outage
probe_run-Agrees_from chain_name chain [] n start a h = h
probe_run-Agrees_from chain_name chain ((r, t) ∷ probes) n start a h =
    let fixed = probe_node-fixed r t chain_name chain n in
    subst
      (λ u.
        Agrees (outage chain u probes (next_start (diagnose r chain n.url) t start))
          (probe_run chain_name chain probes (probe_node r t chain_name chain n)))
      fixed.0
      (probe_run-Agrees_from chain_name chain probes (probe_node r t chain_name chain n) _
        (fixed.1 ∙ a) (probe_node-Agrees r t chain_name chain n start a h))

-- Over any series of probes of a healthy node that is watched, the node is down exactly when the last
-- probe failed, and then since the first failed probe after the last good one.
pub probe_run-Agrees :
    (chain_name : String) (chain : ChainConfig) (probes : List (Rpc × Time)) (n : NodeConfig)
    → n.alert_if_down ≡ true
    → n.down ≡ false
    → Agrees (outage chain n.url probes none) (probe_run chain_name chain probes n)
probe_run-Agrees chain_name chain probes n a h =
    probe_run-Agrees_from chain_name chain probes n none a h
