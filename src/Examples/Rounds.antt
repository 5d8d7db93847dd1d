-- ===== src/Examples/Rounds.antt =====
-- The watch loop on concrete rounds.
use tenderduty_nos.Prelude.{true, ◌≡◌, refl, [], ◌∷◌, List, leb, lookup, Time}
use tenderduty_nos.Config.{ChainConfig, NodeConfig}
use tenderduty_nos.Alerts.{new_watch, watch_round, flag_of}
use tenderduty_nos.Alerts.WatchTrace.{
  watch_round-missed_alarm, no_double, node_alerts, node_alerts-no_double,
}
use tenderduty_nos.Examples.Fixtures.{noon, chain, settings, node, runtime, validator}
use tenderduty_nos.Examples.Chains.{whole}

abbrev missing_chain : ChainConfig
missing_chain = record chain { stat_consecutive_miss = 7 }

abbrev offline_chain : ChainConfig
offline_chain = record chain { no_nodes = true }

watch_round-missed_alarm_example :
    (watch_round noon noon whole settings new_watch missing_chain runtime).0.missed_alarm ≡ leb 5 7
watch_round-missed_alarm_example =
    watch_round-missed_alarm noon noon whole settings new_watch missing_chain runtime validator refl
      refl

abbrev seen : List (Time × NodeConfig)
seen =
    (noon, record (node "https://a") { down = true; down_since = 5 })
    ∷ (noon, record (node "https://a") { was_down = true })
    ∷ []

node_alerts-no_double_example :
    no_double (flag_of (lookup "https://a" [])) (node_alerts settings [] seen) ≡ true
node_alerts-no_double_example =
    node_alerts-no_double "https://a" settings [] seen (refl, (refl, tt))
