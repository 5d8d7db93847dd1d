-- ===== src/Examples/Chains.antt =====
-- The alarms and the result worker of a chain at work.
use tenderduty_nos.Prelude.{
  ℕ, ◌≡◌, refl, true, false, none, some, List, [], ◌∷◌, arith, ◌*◌, ◌/◌, ltb,
}
use Prim.Native.Nat.{max}
use tenderduty_nos.Config.{ValInfo}
use tenderduty_nos.AlarmCache.{new_alarm_cache}
use tenderduty_nos.Alerts.{
  record_final_block, Float, stalled_switch, percent_missed, percentage_switch,
}
use tenderduty_nos.Alerts.Alternation.{
  alternating, percentage_alerts, percentage_alerts-alternating,
}
use tenderduty_nos.Alerts.StalledTrace.{
  Event, block, tick, saw_block, raise, resolve, trace, fits, trace-fits,
}
use tenderduty_nos.Blocks.{
  StatusType, unset, missed, prevote, precommit, signed, proposed, rank, status_int, StatusUpdate,
  BlockEvent, WorkerState, Moment, worker_step, worker_run, record_block_result,
}
use tenderduty_nos.Blocks.Results.{
  tally, tally-counts, count_of, misses_in_a_row, is_sign, is_miss, is_status,
}
use tenderduty_nos.Blocks.Rounds.{round_result, highest, counted}
use tenderduty_nos.Examples.Fixtures.{noon, chain, settings, validator}

-- Whole percentages.
abbrev pub whole : Float
whole = record { F = ℕ; of_int = λ n. n; mul = ◌*◌; div = ◌/◌; lt = ltb }

events : List Event
events = tick noon ∷ tick noon ∷ block noon ∷ tick noon ∷ []

-- A stalled chain: one alert, then a block, then its resolution.
trace-events : trace chain events ≡ raise ∷ saw_block ∷ resolve ∷ []
unfolding trace events stalled_switch record_final_block
trace-events = refl

trace-fits_example : fits false false (trace chain events) ≡ true
trace-fits_example = trace-fits chain events (λ h. cc)

recovered : ValInfo
recovered = record validator { missed = 1 }

-- 20% missed, then 1%: an alert and its resolution.
percentage_alerts_run :
    percentage_alerts whole chain (some validator ∷ none ∷ some recovered ∷ []) ≡ false ∷ true ∷ []
unfolding percentage_alerts percentage_switch percent_missed recovered
percentage_alerts_run = refl

percentage_alerts-alternating_example :
    alternating false (percentage_alerts whole chain (some validator ∷ some recovered ∷ [])) ≡ true
percentage_alerts-alternating_example =
    percentage_alerts-alternating whole chain (some validator ∷ some recovered ∷ [])

abbrev results : List StatusType
results = prevote ∷ missed ∷ proposed ∷ unset ∷ precommit ∷ signed ∷ []

tally-counts_example :
    let cc = tally results chain in
    (cc.stat_total_signs ≡ count_of is_sign results)
    × (cc.stat_total_props ≡ count_of (is_status proposed) results)
    × (cc.stat_total_miss ≡ count_of is_miss results)
    × (cc.stat_prevote_miss ≡ count_of (is_status prevote) results)
    × (cc.stat_precommit_miss ≡ count_of (is_status precommit) results)
    × (cc.stat_consecutive_miss ≡ misses_in_a_row results)
tally-counts_example = tally-counts results chain (omega arith)

abbrev an_event : BlockEvent
an_event = record { height = 7; proposer_address = "A"; validator_addresses = "B" ∷ "C" ∷ [] }

abbrev worker : WorkerState
worker = record { cc = chain; sign_state = unset; running = true; statuses = []; metrics = [] }

abbrev moment : Moment
moment = record {
  now = noon;
  stamp = "now";
  live_block = true;
  sent_stats = 7;
  val_info = some validator;
  alarms = new_alarm_cache;
}

abbrev vote : StatusType → Moment × StatusUpdate
vote s = (moment, record { height = 7; status = s; final = false })

abbrev final_block : StatusUpdate
final_block = record { height = 7; status = missed; final = true }

-- A precommit was seen, but the block does not carry the signature.
round_result_example :
    let us = vote prevote ∷ vote precommit ∷ [] in
    let s' = worker_step moment settings final_block (worker_run settings us worker) in
    (result : StatusType) × (rank result ≡ max (highest us 0) (counted moment final_block))
    × (s'.cc.blocks_results ≡ record_block_result (status_int result) worker.cc.blocks_results)
    × (s'.cc.last_block_num ≡ 7)
    × (s'.cc.last_block_time ≡ noon)
    × (s'.sign_state ≡ unset)
round_result_example =
    round_result settings (vote prevote ∷ vote precommit ∷ []) moment final_block worker validator
      refl refl refl (refl, (refl, tt)) refl refl
