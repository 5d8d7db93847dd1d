-- ===== src/Socket/Session.antt =====
-- WsRun and closeWebSocket (seer/ws.go), but for the goroutines, whose messages are in Socket.Pipeline.
--
-- A context that ends is an answer: of a wait for the next look at the chain, here, and anywhere later
-- it only ends the wait at the end of WsRun. The watcher of the context and the deferred function both
-- close the connection.
use tenderduty_nos.Prelude.{
  ◌*◌, String, ◌<>◌, Bool, true, false, not, if◌then◌else◌, Option, none, some, List, [], ◌∷◌, ◌++◌,
  Time, is_before_ago, minute, got, failed,
}
use tenderduty_nos.Config.{ChainConfig, ValInfo}
use tenderduty_nos.Socket.Client.{dialed, blank, Net, new_client}

-- What an attempt reads: the snapshot, the time, and whether the wait after it lasts its 30 seconds.
pub record Look : Type 0 where
  pub chain : ChainConfig
  pub now : Time
  pub waited : Bool

pub data Startup : Type 0 where
  ready : String → ValInfo → Startup
  timed_out cancelled undecided : Startup

-- `client != nil && startupValInfo != nil && startupValInfo.Conspub != nil`
unfoldable pub snapshot_ready : ChainConfig → Option (String × ValInfo)
snapshot_ready cc = elim cc.client [
  | none ↦ none
  | some client ↦ elim cc.val_info [
    | none ↦ none
    | some v ↦ elim v.conspub [ [] ↦ none | b ∷ bs ↦ some (client, v) ]
  ]
]

-- The loop that waits for an endpoint, over the looks that it takes; `undecided` is after the last.
unfoldable pub wait_for_client : Time → List Look → Startup
wait_for_client started [] = undecided
wait_for_client started (look ∷ looks) = elim (snapshot_ready look.chain) [
  | some (client, v) ↦ ready client v
  | none ↦
      if is_before_ago started (2 * minute) look.now
      then timed_out
      else if not look.waited
      then cancelled
      else wait_for_client started looks
]

-- The chain's connection, `cc.wsclient`, and the connections opened, closed and written to, each oldest
-- first, by the addresses that were dialed. A connection that was never dialed does not come here.
pub record Socket : Type 0 where
  pub wsclient : Option String
  pub opened : List String
  pub closed : List String
  pub written : List String

unfoldable pub close_web_socket : Socket → Socket
close_web_socket s = elim s.wsclient [
  | none ↦ s
  | some connection ↦ record s { wsclient = none; closed = s.closed ++ (connection ∷ []) }
]

-- `Config.closeWebSockets`
unfoldable pub close_web_sockets : List Socket → List Socket
close_web_sockets [] = []
close_web_sockets (s ∷ ss) = close_web_socket s ∷ close_web_sockets ss

abbrev pub query_new_block : String
query_new_block = "tm.event='NewBlock'"

abbrev pub query_vote : String
query_vote = "tm.event='Vote'"

unfoldable pub subscription : String → String
subscription query =
    "{\"jsonrpc\":\"2.0\",\"method\":\"subscribe\",\"id\":1,\"params\":{\"query\":\""
    <> (query <> "\"}}")

-- The subscriptions up to the first that cannot be written. `write` is the connection's answer.
unfoldable pub subscribe : (String → Option String) → List String → Socket → Socket × Bool
unfolding subscription
subscribe write [] s = (s, true)
subscribe write (query ∷ queries) s = elim (write (subscription query)) [
  | some e ↦ (s, false)
  | none ↦ subscribe write queries (record s { written = s.written ++ (subscription query ∷ []) })
]

-- `cc.wsclient = connection` overwrites what stood there.
unfoldable pub open_web_socket : String → Socket → Socket
open_web_socket connection s = record s {
  wsclient = some connection;
  opened = s.opened ++ (connection ∷ []);
}

-- `returned` says whether WsRun got as far as to watch for events. A zero websocket.Conn, which was never
-- dialed, panics at the first read, write or close, and the process ends: `panicked`.
pub data Ended : Type 0 where
  returned : Bool → Ended
  panicked waiting : Ended

-- WsRun to its end.
unfoldable pub ws_run : Net → (String → Option String) → Time → List Look → Socket → Socket × Ended
ws_run net write started looks s = elim (wait_for_client started looks) [
  | ready client v ↦ elim (new_client net client true) [
    | failed e ↦ (close_web_socket s, returned false)
    | got blank ↦ (s, panicked)
    | got (dialed address) ↦
        let (s', watched) =
          subscribe write (query_new_block ∷ query_vote ∷ []) (open_web_socket address s) in
        (close_web_socket (close_web_socket s'), returned watched)
  ]
  | timed_out ↦ (close_web_socket s, returned false)
  | cancelled ↦ (close_web_socket s, returned false)
  | undecided ↦ (s, waiting)
]
