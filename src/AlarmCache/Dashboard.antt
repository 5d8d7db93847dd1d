-- ===== src/AlarmCache/Dashboard.antt =====
-- The dashboard alarms of seer/alert.go: recordDashboardAlarm, clearNoBlocks, getCount.
use text.Mathlib.Text.{starts_with}
use tenderduty_nos.Prelude.{
  String, Bool, not, ◌&&◌, ◌≡◌, arith, inl, inr, Option-cases, if◌then◌else◌, [], ◌∷◌, Map, has,
  lookup, insert, erase, inner, inner-insert, has-insert, has-erase, has-nil, has-cons,
  lookup-insert, Time, str_eq, str_eq→eq,
}
use tenderduty_nos.AlarmCache.Defs.{
  AlarmCache, stalled_prefix, without_stalled, clear_no_blocks, record_dashboard_alarm,
}

-- Is the message shown for the chain?
abbrev pub shows : AlarmCache → String → String → Bool
shows a chain message = has message (inner chain a.all_alarms)

has-without_stalled :
    (message : String) (m : Map Time)
    → has message (without_stalled m) ≡ not (starts_with message stalled_prefix) && has message m
unfolding without_stalled
has-without_stalled message [] = ground (arith, has-nil Time message)
has-without_stalled message ((k, t) ∷ m) = ground (
  arith,
  has-without_stalled message m,
  has-cons message k t m,
  has-cons message k t (without_stalled m),
  str_eq→eq message k,
)

-- A recorded alarm is shown until its resolution is recorded, and nothing else changes.
pub shows-record_dashboard_alarm :
    (now : Time) (a : AlarmCache) (chain message c m : String) (resolved : Bool)
    → shows (record_dashboard_alarm now a chain message resolved) c m
      ≡ (if str_eq c chain && str_eq m message then not resolved else shows a c m)
unfolding record_dashboard_alarm
shows-record_dashboard_alarm now a chain message c m resolved = ground (
  arith,
  inner-insert chain c
      (if resolved
        then erase message (inner chain a.all_alarms)
        else insert message now (inner chain a.all_alarms))
      a.all_alarms,
  has-insert message m now (inner chain a.all_alarms),
  has-erase message m (inner chain a.all_alarms),
  str_eq→eq c chain,
)

-- Clearing removes the stalled alarms of the chain, all of them, and nothing else.
pub shows-clear_no_blocks :
    (a : AlarmCache) (chain c m : String)
    → shows (clear_no_blocks a chain) c m
      ≡ not (str_eq c chain && starts_with m stalled_prefix) && shows a c m
unfolding clear_no_blocks inner
shows-clear_no_blocks a chain c m = elim (Option-cases (lookup chain a.all_alarms)) [
  | inl e ↦ ground (arith, str_eq→eq c chain, has-nil Time m)
  | inr (n, e) ↦ ground (
    arith,
    lookup-insert chain c (without_stalled n) a.all_alarms,
    has-without_stalled m n,
    str_eq→eq c chain,
  )
]
