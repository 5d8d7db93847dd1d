-- ===== src/Loading/Process.antt =====
-- Run (seer/run.go) up to where the monitors are started, after which the process is a Lifecycle.System.
-- `bad_url` is url.Parse for the dashboard's address, `healthcheck` the switch of the ping to an outside
-- monitor and `quitting` whether a signal has come before the start. A log line and the helpers that
-- only serve or discard are not modelled.
use tenderduty_nos.Prelude.{ℕ, ◌+◌, ◌*◌, String, Bool, if◌then◌else◌, List, length, Time}
use tenderduty_nos.Config.{Config}
use tenderduty_nos.Notify.{Sender}
use tenderduty_nos.SavedState.{SavedState, snapshot_saved_state}
use tenderduty_nos.Startup.{validate_config}
use tenderduty_nos.Lifecycle.{System, new_runtime_lifecycle}
use tenderduty_nos.Loading.Load.{Source, LoadFailure, ready, refusal, load_config}

-- What Run does: it returns the failure, ends the process with the problems found, saves the state at
-- once, or runs.
pub data RunResult : Type 0 where
  refused : LoadFailure → RunResult
  invalid : List String → RunResult
  saved_at_once : SavedState → RunResult
  running : System → RunResult

-- Three monitors for each chain, and one for the healthcheck.
unfoldable pub monitor_count : Bool → Config → ℕ
monitor_count healthcheck c = (if healthcheck then 1 else 0) + 3 * length c.chains

unfoldable pub run :
    Source
    → (String → Bool)
    → Bool
    → Bool
    → Sender
    → Time
    → String
    → String
    → String
    → String
    → RunResult
unfolding load_config validate_config snapshot_saved_state new_runtime_lifecycle monitor_count
run s bad_url healthcheck quitting sender now file state_file directory password =
    elim (load_config s now file state_file directory password) [
      | refusal e ↦ refused e
      | ready c alarms ↦
          let (fatal, validated) = validate_config (bad_url c.listen) c in
          let c' = record c { chains = validated.chains } in
          if fatal
          then invalid validated.problems
          else if quitting
          then saved_at_once (snapshot_saved_state (c', alarms))
          else running (
              new_runtime_lifecycle c' alarms (record sender { cache = alarms })
                (monitor_count healthcheck c'))
    ]
