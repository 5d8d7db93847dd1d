-- ===== src/Server/Serve.antt =====
-- The loop of Serve, the answers of its handlers, and checkWebsocketOrigin (seer/dashboard/server.go).
-- `Pages` is encoding/json, the regular expression for endpoints, url.Parse and strings.EqualFold. The
-- HTTP server and the files that it serves are not modelled.
use Prim.Native.String.{compare}
use text.Mathlib.Text.{is_le}
use tenderduty_nos.Prelude.{
  ℕ, String, Bool, true, false, not, ◌&&◌, if◌then◌else◌, Option, none, some, List, [], ◌∷◌, ◌++◌,
  length, str_eq, Map, insert, leb, drop_last,
}
use tenderduty_nos.Blocks.{ChainStatus}

pub record LogMessage : Type 0 where
  pub log_type : String
  pub stamp : ℕ
  pub text : String

pub record Origin : Type 0 where
  pub scheme : String
  pub host : String

pub record Pages : Type 0 where
  pub status_json : List ChainStatus → Option String
  pub logs_json : List LogMessage → Option String
  pub log_json : LogMessage → Option String
  pub matches : String → Bool
  pub redact : String → String
  pub parse : String → Option Origin
  pub equal_fold : String → String → Bool

-- What the loop keeps, and the messages that it has broadcast, oldest first.
pub record Board : Type 0 where
  pub status : Map ChainStatus
  pub logs : List LogMessage
  pub status_cache : String
  pub log_cache : String
  pub update : Bool
  pub cast : List String

abbrev pub log_length : ℕ
log_length = 256

unfoldable pub new_board : Board
new_board = record {
  status = [];
  logs = [];
  status_cache = "{}";
  log_cache = "[]";
  update = false;
  cast = [];
}

-- `sort.StringsAreSorted` of two texts
abbrev sorted_pair : String → String → Bool
sorted_pair s t = is_le (compare s t)

-- `sort.Slice` by the names, which are those of a map and so all differ.
unfoldable pub insert_sorted : ChainStatus → List ChainStatus → List ChainStatus
insert_sorted u [] = u ∷ []
insert_sorted u (v ∷ vs) =
    let rest = insert_sorted u vs in if sorted_pair u.name v.name then u ∷ v ∷ vs else v ∷ rest

unfoldable pub sort_by_name : Map ChainStatus → List ChainStatus
unfolding insert_sorted
sort_by_name [] = []
sort_by_name ((k, u) ∷ rest) = insert_sorted u (sort_by_name rest)

-- Endpoints are taken out of the error that a status carries.
unfoldable pub redacted : Pages → Bool → ChainStatus → ChainStatus
redacted p hide_logs u =
    if hide_logs && p.matches u.last_error
    then record u { last_error = p.redact u.last_error }
    else u

-- The newest line goes in front; where the list is full the oldest falls out.
unfoldable pub push_log : LogMessage → List LogMessage → List LogMessage
push_log l logs = if leb log_length (length logs) then l ∷ drop_last logs else l ∷ logs

-- What the `select` of the loop may find.
pub data Event : Type 0 where
  tick : Event
  updated : ChainStatus → Event
  logged : LogMessage → Event

-- `case l := <-logs`, but for the test of hideLogs.
unfoldable pub take_log : Pages → LogMessage → Board → Board
unfolding push_log
take_log p l b =
    let b' = record b { logs = push_log l b.logs } in
    elim (p.logs_json b'.logs) [
      | none ↦ b'
      | some j ↦
          let b'' = record b' { log_cache = j } in
          elim (p.log_json l) [ none ↦ b'' | some k ↦ record b'' { cast = b''.cast ++ (k ∷ []) } ]
    ]

-- `case u := <-updates`
unfoldable pub take_status : Pages → Bool → ChainStatus → Board → Board
unfolding redacted sort_by_name
take_status p hide_logs u b =
    let u' = redacted p hide_logs u in
    let b' = record b { status = insert u'.name u' b.status } in
    elim (p.status_json (sort_by_name b'.status)) [
      | none ↦ b'
      | some j ↦ record b' { status_cache = j; update = true }
    ]

unfoldable pub serve_step : Pages → Bool → Event → Board → Board
unfolding take_log take_status
serve_step p hide_logs tick b =
    if b.update then record b { cast = b.cast ++ (b.status_cache ∷ []); update = false } else b
serve_step p hide_logs (updated u) b = take_status p hide_logs u b
serve_step p hide_logs (logged l) b = if hide_logs then b else take_log p l b

unfoldable pub serve_run : Pages → Bool → List Event → Board → Board
serve_run p hide_logs [] b = b
serve_run p hide_logs (e ∷ es) b = serve_run p hide_logs es (serve_step p hide_logs e b)

-- What /logs, /state and /logsenabled answer.
abbrev pub logs_page : Board → String
logs_page b = b.log_cache

abbrev pub state_page : Board → String
state_page b = b.status_cache

-- A websocket is opened for a request without an origin, or from a page of this host.
unfoldable pub check_websocket_origin : Pages → String → String → Bool
check_websocket_origin p origin host = if str_eq origin "" then true else elim (p.parse origin) [
  | none ↦ false
  | some o ↦
      if not (str_eq o.scheme "http") && not (str_eq o.scheme "https")
      then false
      else p.equal_fold o.host host
]
