-- ===== src/Examples/Reconnects.antt =====
-- Two passes of the loop that keeps a chain connected.
use tenderduty_nos.Prelude.{true, false, none, List, [], ◌∷◌}
use tenderduty_nos.AlarmCache.{new_alarm_cache}
use tenderduty_nos.Supervision.{Pass, Watched}
use tenderduty_nos.Examples.Fixtures.{noon, chain}
use tenderduty_nos.Examples.Endpoints.{second_synced, at_noon}
use tenderduty_nos.Examples.Refreshes.{good_answers}
use tenderduty_nos.Examples.Sockets.{net, looks, closed_socket}

abbrev pass : Pass
pass = record {
  live = true;
  rpc = second_synced;
  now = at_noon;
  alarms = new_alarm_cache;
  queries = good_answers;
  net = net;
  write = λ text. none;
  started = noon;
  looks = looks;
  live_after = true;
  waited = true;
}

abbrev passes : List Pass
passes = pass ∷ record pass { live = false } ∷ []

abbrev fresh : Watched
fresh = record { cc = chain; socket = closed_socket; statuses = []; metrics = [] }
