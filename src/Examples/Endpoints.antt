-- ===== src/Examples/Endpoints.antt =====
-- Endpoints on concrete networks.
use tenderduty_nos.Prelude.{String, ◌≡◌, refl, none, some, List, [], ◌∷◌, str_eq, Time}
use tenderduty_nos.AlarmCache.{new_alarm_cache}
use tenderduty_nos.Nodes.{Rpc, answered, judge, any_up, fall_back, try_url, new_rpc}
use tenderduty_nos.Nodes.Chosen.{IsServed, best_client, first_usable, new_rpc-best_client}
use tenderduty_nos.Nodes.Outage.{Agrees, outage, probe_run, probe_run-Agrees}
use tenderduty_nos.Examples.Fixtures.{noon, chain, settings, node}

-- The nodes answer, and the second one alone is synced.
abbrev pub second_synced : Rpc
second_synced = record {
  parse_error = λ url. none;
  open_error = λ url. none;
  status = λ url. answered (record { network = "osmosis-1"; catching_up = str_eq url "https://a" });
  cosmos_paths = [];
  page = λ url. none;
  find_endpoint = λ body. none;
}

abbrev all_dead : Rpc
all_dead = record second_synced { open_error = λ url. some "refused" }

abbrev pub at_noon : String → Time
at_noon url = noon

second_is_best : best_client second_synced chain ≡ some "https://b"
unfolding best_client first_usable try_url judge any_up str_eq
second_is_best = refl

new_rpc-best_client_example :
    IsServed
      (best_client second_synced chain)
      chain
      (new_rpc second_synced at_noon settings new_alarm_cache chain)
new_rpc-best_client_example =
    new_rpc-best_client second_synced at_noon settings new_alarm_cache chain

dead_has_none : best_client all_dead chain ≡ none
unfolding best_client first_usable try_url any_up fall_back
dead_has_none = refl

abbrev three_probes : List (Rpc × Time)
three_probes = (second_synced, noon) ∷ (all_dead, 5) ∷ (all_dead, 6) ∷ []

probe_run-Agrees_example :
    Agrees
      (outage chain "https://a" three_probes none)
      (probe_run "osmosis" chain three_probes (node "https://a"))
probe_run-Agrees_example =
    probe_run-Agrees "osmosis" chain three_probes (node "https://a") refl refl
