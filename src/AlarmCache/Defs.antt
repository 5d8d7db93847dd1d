-- ===== src/AlarmCache/Defs.antt =====
-- alertMsg, notifyDest, alarmCache and its methods, of seer/alert.go.
use text.Mathlib.Text.{starts_with}
use tenderduty_nos.Prelude.{
  ℕ, ◌*◌, String, Bool, true, false, not, ◌&&◌, ◌||◌, [], ◌∷◌, if◌then◌else◌, length, Map, lookup,
  has, insert, erase, time_at, inner, Time, is_zero, minute, is_after_ago, ◌<>◌, none, some,
}

pub record AlertMsg : Type 0 where
  pub pd : Bool
  pub disc : Bool
  pub tg : Bool
  pub slk : Bool
  pub severity : String
  pub resolved : Bool
  pub chain : String
  pub message : String
  pub unique_id : String
  pub key : String
  pub tg_channel : String
  pub tg_key : String
  pub tg_mentions : String
  pub disc_hook : String
  pub disc_mentions : String
  pub slk_hook : String
  pub slk_mentions : String

pub data NotifyDest : Type 0 where
  pd tg di slk : NotifyDest

abbrev pub dest_eq : NotifyDest → NotifyDest → Bool
dest_eq pd pd = true
dest_eq tg tg = true
dest_eq di di = true
dest_eq slk slk = true
dest_eq _ _ = false

pub record AlarmCache : Type 0 where
  pub sent_pd_alarms : Map Time
  pub sent_tg_alarms : Map Time
  pub sent_di_alarms : Map Time
  pub sent_slk_alarms : Map Time
  pub all_alarms : Map (Map Time)
  pub flapping_alarms : Map (Map Time)
  pub in_flight : NotifyDest → Map (Unit {0})

unfoldable pub new_alarm_cache : AlarmCache
new_alarm_cache = record {
  sent_pd_alarms = [];
  sent_tg_alarms = [];
  sent_di_alarms = [];
  sent_slk_alarms = [];
  all_alarms = [];
  flapping_alarms = [];
  in_flight = λ dest. [];
}

-- `sentMapLocked` returns a map that its caller writes: a read and a write here.
unfoldable pub sent_map : AlarmCache → NotifyDest → Map Time
sent_map a pd = a.sent_pd_alarms
sent_map a tg = a.sent_tg_alarms
sent_map a di = a.sent_di_alarms
sent_map a slk = a.sent_slk_alarms

unfoldable pub set_sent_map : AlarmCache → NotifyDest → Map Time → AlarmCache
set_sent_map a pd m = record a { sent_pd_alarms = m }
set_sent_map a tg m = record a { sent_tg_alarms = m }
set_sent_map a di m = record a { sent_di_alarms = m }
set_sent_map a slk m = record a { sent_slk_alarms = m }

unfoldable pub set_in_flight : AlarmCache → NotifyDest → Map (Unit {0}) → AlarmCache
set_in_flight a dest m = record a { in_flight = λ d. if dest_eq dest d then m else a.in_flight d }

-- The test on a resolution and on a repeated alert.
unfoldable pub is_due : AlarmCache → AlertMsg → NotifyDest → Bool
is_due a msg dest =
    let fresh = is_zero (time_at msg.message (sent_map a dest)) in
    if msg.resolved then not fresh else fresh

-- PagerDuty alone is spared an alert that it accepted less than five minutes ago.
unfoldable pub is_flapping : Time → AlarmCache → AlertMsg → NotifyDest → Bool
is_flapping now a msg dest =
    dest_eq dest pd
    && not msg.resolved
    && is_after_ago (time_at msg.message (inner msg.chain a.flapping_alarms)) (5 * minute) now

unfoldable pub reserve_delivery : Time → AlarmCache → AlertMsg → NotifyDest → AlarmCache × Bool
unfolding is_due is_flapping set_in_flight
reserve_delivery now a msg dest =
    if has msg.message (a.in_flight dest)
    then (a, false)
    else if not (is_due a msg dest)
    then (a, false)
    else if is_flapping now a msg dest
    then (a, false)
    else (set_in_flight a dest (insert msg.message tt (a.in_flight dest)), true)

-- The cache after an accepted alert or resolution.
unfoldable pub record_accepted : Time → AlarmCache → AlertMsg → NotifyDest → AlarmCache
unfolding sent_map set_sent_map
record_accepted now a msg dest =
    let sent = sent_map a dest in
    if msg.resolved
    then set_sent_map a dest (erase msg.message sent)
    else let a' = set_sent_map a dest (insert msg.message now sent) in
      let flaps = insert msg.message now (inner msg.chain a'.flapping_alarms) in
      if dest_eq dest pd
      then record a' { flapping_alarms = insert msg.chain flaps a'.flapping_alarms }
      else a'

unfoldable pub complete_delivery : Time → AlarmCache → AlertMsg → NotifyDest → Bool → AlarmCache
unfolding record_accepted set_in_flight
complete_delivery now a msg dest accepted =
    let a' = set_in_flight a dest (erase msg.message (a.in_flight dest)) in
    if accepted then record_accepted now a' msg dest else a'

abbrev pub stalled_prefix : String
stalled_prefix = "stalled: have not seen a new block on"

-- The loop of `clearNoBlocks` over one chain's alarms.
unfoldable pub without_stalled : Map Time → Map Time
without_stalled [] = []
without_stalled ((message, t) ∷ m) =
    let rest = without_stalled m in
    if starts_with message stalled_prefix then rest else (message, t) ∷ rest

unfoldable pub clear_no_blocks : AlarmCache → String → AlarmCache
unfolding without_stalled
clear_no_blocks a chain = elim (lookup chain a.all_alarms) [
  | none ↦ a
  | some m ↦ record a { all_alarms = insert chain (without_stalled m) a.all_alarms }
]

unfoldable pub get_count : AlarmCache → String → ℕ
get_count a chain = length (inner chain a.all_alarms)

unfoldable pub record_dashboard_alarm : Time → AlarmCache → String → String → Bool → AlarmCache
record_dashboard_alarm now a chain_name message resolved =
    let m = inner chain_name a.all_alarms in
    let m' = if resolved then erase message m else insert message now m in
    record a { all_alarms = insert chain_name m' a.all_alarms }

alarm_lines : Map Time → String
alarm_lines [] = ""
alarm_lines ((message, t) ∷ m) = ("🚨 " <> (message <> "\n")) <> alarm_lines m

-- `getAlarms`; the order of the lines is the map's.
unfoldable pub get_alarms : Bool → AlarmCache → String → String
unfolding alarm_lines
get_alarms hide_logs a chain =
    if hide_logs || not (has chain a.all_alarms) then "" else alarm_lines (inner chain a.all_alarms)
