-- ===== src/Examples/Sockets.antt =====
-- The websocket at work.
use tenderduty_nos.Prelude.{
  ℕ, ◌+◌, ◌*◌, ◌≡◌, ◌↔◌, ◌⊎◌, refl, String, ◌<>◌, true, false, none, some, List, [], ◌∷◌, ◌++◌, got,
  Time, second, minute, str_eq,
}
use tenderduty_nos.Blocks.{StatusUpdate, Wire, WorkerState, worker_run, unset}
use tenderduty_nos.Socket.{
  Url, Connection, dialed, Net, new_client, websocket_url, websocket_scheme, trim_slashes,
  has_suffix, open_connection, Frames, WsReply, BlockInput, tick, arrival, idle, handle_blocks,
  Look, snapshot_ready, wait_for_client, Socket, panicked, ws_run, route,
}
use tenderduty_nos.Socket.Endpoint.{IsOpened, new_client-got}
use tenderduty_nos.Socket.Idle.{IsSilent, handle_blocks_iff}
use tenderduty_nos.Socket.Pipeline.{
  Pipe, opened, read_message, Reach, here, next, held, block_of, vote_of, blocks_of, votes_of,
  final_of, early_of,
}
use tenderduty_nos.Socket.Pipeline.Delivery.{Reach-delivers}
use tenderduty_nos.Examples.Fixtures.{noon, chain, validator, settings}

-- Every address parses to an endpoint of the scheme https.
abbrev pub net : Net
net = record {
  parse = λ u. got (record { scheme = "https"; rest = u });
  render = λ u. u.scheme <> u.rest;
  dial = λ u. none;
}

address_found : websocket_url "https://a/rpc//" ≡ "https://a/rpc/websocket"
unfolding websocket_url trim_slashes has_suffix str_eq
address_found = refl

abbrev secure : Connection
secure = dialed ("wss" <> "https://a/websocket")

dials : new_client net "https://a" false ≡ got secure
unfolding new_client websocket_url websocket_scheme trim_slashes has_suffix open_connection str_eq
dials = refl

new_client-got_example :
    (endpoint : Url) × (scheme : String) × (net.parse (websocket_url "https://a") ≡ got endpoint)
    × (((scheme ≡ "ws") × (false ≡ true)) ⊎ (scheme ≡ "wss"))
    × IsOpened net endpoint scheme secure
new_client-got_example = new_client-got net "https://a" false secure dials

abbrev wire : Wire
wire = record {
  unmarshal_block =
      λ payload. some (record { height = "7"; proposer_address = "A"; signatures = [] });
  unmarshal_vote = λ payload. none;
  parse_int = λ text. (7, none);
}

abbrev block_message : WsReply
block_message = record {
  id = 1;
  query = "";
  event_type = "tendermint/event/NewBlock";
  event_value = some "{}";
}

abbrev quiet : List BlockInput
quiet = arrival noon block_message ∷ tick (noon + minute) ∷ tick (noon + (minute + minute)) ∷ []

handle_blocks_iff_example :
    ((now : Time) × (updates : List StatusUpdate) × (handle_blocks wire "A" quiet noon []
        ≡ idle now updates))
    ↔ IsSilent noon quiet
handle_blocks_iff_example = handle_blocks_iff wire "A" quiet noon

abbrev look : ℕ → Look
look n = record {
  chain = record chain { client = none };
  now = noon + n * (30 * second);
  waited = true;
}

abbrev pub looks : List Look
looks = look 0 ∷ look 1 ∷ look 2 ∷ look 3 ∷ look 4 ∷ look 5 ∷ []

abbrev pub closed_socket : Socket
closed_socket = record { wsclient = none; opened = []; closed = []; written = [] }

-- Every address parses to a Unix socket.
abbrev unix_net : Net
unix_net = record net { parse = λ u. got (record { scheme = "unix"; rest = u }) }

abbrev found : Look
found = record (look 0) {
  chain = record chain { val_info = some (record validator { conspub = 7 ∷ [] }) };
}

unix_panics : (ws_run unix_net (λ text. none) noon (found ∷ []) closed_socket).1 ≡ panicked
unfolding ws_run wait_for_client snapshot_ready new_client websocket_url websocket_scheme
    trim_slashes has_suffix open_connection str_eq
unix_panics = refl

abbrev frames : Frames
frames = record { unmarshal_reply = λ message. some block_message; wire = wire }

abbrev worker : WorkerState
worker = record { cc = chain; sign_state = unset; running = true; statuses = []; metrics = [] }

abbrev one_message : Pipe
one_message = opened ("{}" ∷ []) worker

abbrev one_read : Pipe
one_read = record one_message { incoming = []; read = "{}" ∷ []; handed = route frames "{}" }

one_read-Reach : Reach frames "A" settings one_message one_read
unfolding opened
one_read-Reach = next here (read_message one_message "{}" refl refl)

Reach-delivers_example :
    ("{}" ∷ [] ≡ one_read.read ++ one_read.incoming)
    × (blocks_of frames "A" one_read.read
        ≡ final_of one_read.taken ++ (held one_read.block ++ block_of frames "A" one_read.handed))
    × (votes_of frames "A" one_read.read
        ≡ early_of one_read.taken ++ (held one_read.vote ++ vote_of frames "A" one_read.handed))
    × (one_read.worker ≡ worker_run settings one_read.taken worker)
Reach-delivers_example =
    Reach-delivers frames "A" settings ("{}" ∷ []) worker one_read one_read-Reach
