-- ===== src/Alerts/WatchTrace.antt =====
-- The alarms of Config.watch (seer/alert.go) over series of rounds.
use tenderduty_nos.Prelude.{
  ℕ, zero, suc, String, Bool, true, false, not, ◌&&◌, ◌≡◌, refl, ap, subst, ◌∙◌, arith, Option,
  none, some, List, [], ◌∷◌, leb, Map, lookup, insert, lookup-insert_same, Time, All,
}
use tenderduty_nos.Config.{ChainConfig, Config, NodeConfig, ValInfo}
use tenderduty_nos.Alerts.Ingress.{Runtime}
use tenderduty_nos.Alerts.Stalled.{check_stalled_alert, stalled_switch}
use tenderduty_nos.Alerts.Percentage.{Float}
use tenderduty_nos.Alerts.Alternation.{alternating}
use tenderduty_nos.Alerts.Watch.{
  WatchState, missed_switch, no_nodes_switch, node_switch, watch_round, flag_of, no_nodes_due,
}

abbrev emitted : Option Bool → List Bool → List Bool
emitted none rest = rest
emitted (some resolved) rest = resolved ∷ rest

-- The alerts on missed blocks, as the loop sees the chain in one round after the other.
unfoldable pub missed_alerts : WatchState → List ChainConfig → List Bool
missed_alerts w [] = []
missed_alerts w (chain ∷ chains) =
    let (w', due) = missed_switch chain w in emitted due (missed_alerts w' chains)

-- The alarm on missed blocks raises and resolves in turn.
pub missed_alerts-alternating :
    (w : WatchState) (chains : List ChainConfig)
    → alternating w.missed_alarm (missed_alerts w chains) ≡ true
unfolding missed_alerts missed_switch
missed_alerts-alternating w [] = refl
missed_alerts-alternating w (chain ∷ chains) =
    let ih = missed_alerts-alternating (missed_switch chain w).0 chains in ground (arith, ih)

check_stalled_alert-keeps :
    (now noted : Time) (td : Config) (chain : ChainConfig) (r : Runtime)
    → ((check_stalled_alert now noted td chain r).0.alerts ≡ chain.alerts)
      × ((check_stalled_alert now noted td chain r).0.stat_consecutive_miss
          ≡ chain.stat_consecutive_miss)
unfolding check_stalled_alert stalled_switch
check_stalled_alert-keeps now noted td chain r = (ground arith, ground arith)

missed_switch-flag :
    (chain : ChainConfig) (w : WatchState)
    → chain.alerts.consecutive_alerts ≡ true
    → (missed_switch chain w).0.missed_alarm
      ≡ leb chain.alerts.consecutive_missed chain.stat_consecutive_miss
unfolding missed_switch
missed_switch-flag chain w e = ground (arith, e)

-- After every round on a chain whose validator is known and whose missed blocks are watched, the alarm
-- is raised exactly when the misses since the last signature have reached the threshold.
pub watch_round-missed_alarm :
    (now noted : Time) (fl : Float) (td : Config) (w : WatchState) (chain : ChainConfig)
    (r : Runtime) (v : ValInfo)
    → chain.val_info ≡ some v
    → chain.alerts.consecutive_alerts ≡ true
    → (watch_round now noted fl td w chain r).0.missed_alarm
      ≡ leb chain.alerts.consecutive_missed chain.stat_consecutive_miss
unfolding watch_round
watch_round-missed_alarm now noted fl td w chain r v h e =
    let r1 = no_nodes_due noted td chain v (no_nodes_switch td chain w).1 r in
    let k = check_stalled_alert-keeps now noted td chain r1 in
    rw (watch_round, h)
      (missed_switch-flag (check_stalled_alert now noted td chain r1).0 _
          (ap (λ a. a.consecutive_alerts) k.0 ∙ e)
        ∙ (rw (k.0, k.1) refl))

unfoldable pub no_nodes_rounds : ℕ → Config → ChainConfig → WatchState → WatchState
no_nodes_rounds zero td chain w = w
no_nodes_rounds (suc k) td chain w = no_nodes_rounds k td chain (no_nodes_switch td chain w).0

-- A raise is not followed by another before a resolution; a resolution may stand alone.
abbrev pub no_double : Bool → List Bool → Bool
no_double alarm [] = true
no_double alarm (true ∷ rest) = no_double false rest
no_double alarm (false ∷ rest) = not alarm && no_double true rest

-- The alerts on a node, as the loop sees it in one round after the other.
unfoldable pub node_alerts : Config → Map Bool → List (Time × NodeConfig) → List Bool
node_alerts td raised [] = []
node_alerts td raised ((now, n) ∷ rest) =
    let (n', (raised', due)) = node_switch now td n raised in
    emitted due (node_alerts td raised' rest)

-- However a node goes up and down, no second alarm on it is raised before the first is resolved.
pub node_alerts-no_double :
    (url : String) (td : Config) (raised : Map Bool) (seen : List (Time × NodeConfig))
    → All (λ x. x.1.url ≡ url) seen
    → no_double (flag_of (lookup url raised)) (node_alerts td raised seen) ≡ true
unfolding node_alerts node_switch
node_alerts-no_double url td raised [] u = refl
node_alerts-no_double url td raised ((now, n) ∷ rest) u =
    let ih = node_alerts-no_double url td (node_switch now td n raised).1.0 rest u.1 in
    let t =
      subst (λ x. lookup x (insert n.url true raised) ≡ some true) u.0
        (lookup-insert_same n.url true raised) in
    let f =
      subst (λ x. lookup x (insert n.url false raised) ≡ some false) u.0
        (lookup-insert_same n.url false raised) in
    let same = ap (λ x. lookup x raised) u.0 in ground (arith, ih, t, f, same)
