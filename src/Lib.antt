-- ===== src/Lib.antt =====
-- NosNode Seer (tenderduty-nos): a monitor of validators on Cosmos chains, in Go.
--
-- The program follows each configured chain over RPC and WebSocket, works out what the validator did in
-- every block, raises alarms, delivers them to PagerDuty, Discord, Telegram and Slack, shows them on a
-- dashboard and in metrics, and keeps its state in a file so that a restart does not alert again.
--
-- How the parts interact. Blocks and votes (Blocks) become updates that the result worker turns into a
-- chain's results, counters and `last_block_time`. The alarm rules (Alerts) read those fields on every
-- tick and call `alert`, which puts a message on the alert queue and on the dashboard. Notify takes the
-- messages from the queue, reserves each delivery in the alarm cache (AlarmCache), sends it, and records
-- what was accepted. SavedState writes the cache, the results and the nodes that are down to the state
-- file, and takes them over at a start.
--
-- Around these run the process's own parts. Command reads the command line and either converts a
-- configuration file (Encryption) or starts the process. Loading reads the configuration, remote and
-- encrypted or local, adds the chain files and the durable state, and hands it to Startup and then to
-- Lifecycle, which starts the monitors, carries the alerts of Alerts to the worker of Notify and shuts
-- all down. Supervision keeps each chain connected: it has Nodes choose an
-- endpoint, Validator read the validator's state and Socket follow the chain, which feeds the result
-- worker of Blocks. Server keeps for the dashboard
-- what the result worker publishes.
--
-- Prelude: the shared names, Go's maps as association lists behind the laws of `lookup`, time as
--   nanoseconds since year 1, integers, text and the formats of fmt.Sprintf that the program uses.
-- AlarmCache: alertMsg, notifyDest and alarmCache with its methods (seer/alert.go). Defs has the
--   operations in source order; Phase the four phases of one message at one destination; Trace the step
--   relation of concurrent workers, where each critical section of `notifyMux` is one step, with the
--   order of what was accepted (Alternation) and PagerDuty's five-minute rule (Spacing) below it;
--   Dashboard the alarms shown.
-- Notify: the messages and the notify functions (seer/alert.go). Messages has the build functions, Send
--   the requests, the retry loop, `with_reservation` and `deliver_alert`.
-- Config: the configuration and chain state (seer/types.go, seer/validator.go).
-- Alerts: Config.alert and the ingress gate (seer/alert.go, seer/runtime_state.go), checkStalledAlert,
--   recordFinalBlock and checkPercentageAlert; Watch is one round of Config.watch, with the alarms on
--   endpoints, the active set, missed blocks and nodes.
-- Metrics: the metrics, their labels and mkUpdate (seer/prometheus.go, seer/types.go).
-- Blocks: Events decodes and classifies block and vote events (seer/rpc_contract.go,
--   seer/cometbft_adapter.go); Worker is the result goroutine of WsRun (seer/ws.go),
--   which reads the validator's state and the alarms anew for each update.
-- Nodes: the choice of an RPC endpoint and the minutely probe of every node (seer/rpc.go,
--   seer/runtime_state.go); Registry has the paths of public endpoints (seer/chain-details.go).
-- Validator: GetValInfo and the publication of its answer (seer/validator.go, seer/runtime_state.go), and
--   the queries of the CometBFT adapter (seer/cometbft_adapter.go) in Adapter.
-- SavedState: the state file (seer/state.go). Decode and Load read it, Replace writes it on a disk whose
--   every operation may fail, Restore takes a snapshot and restores one.
-- Startup: validateConfig (seer/types.go), which completes the chains and lists problems.
-- Encryption: getKey, encrypt, decrypt (Cipher) and EncryptedConfig (Files) of seer/encryption.go; Slices,
--   Padding and RoundTrip have the lemmas, Authentic what decrypt accepts, Conversion what is on disk.
-- Lifecycle: newRuntimeLifecycle, the notification worker and shutdown (seer/run.go). Process has the state
--   and the steps: Work of the monitors, Drain of what is under way and of shutdown's later parts,
--   Control of its first part and its time limits. Invariant and Moves have the invariant, Safety,
--   Termination, Liveness and Shutdown what follows.
-- Socket: NewClientContext (Client), the messages and handleBlocks (Messages), WsRun's start and end
--   (Session) and its goroutines (Pipeline), of seer/ws.go; the address texts of seer/rpc_contract.go.
-- Supervision: monitorChain (seer/run.go) and a whole tick of monitorHealth (seer/rpc.go).
-- Loading: loadConfig (seer/types.go) in Load, Run up to the start of the monitors (seer/run.go) in Process.
-- Server: the loop of the dashboard's server (seer/dashboard/server.go).
-- Baseline: the build's check of a vulnerability report (scripts/check-govulncheck.go).
-- Command: parseOptions, runApp and legacyInvocationWorkingDirectory (main.go).
-- Examples: tests of the definitions, and the results below at a concrete input.
--
-- Modelling choices. Heights, counters and durations that the program never makes negative are natural
-- numbers; the block results, whose fill value is -1, and the version of the state file are integers.
-- A map that is nil and only read is the empty map. A clock reading is an argument of the operation
-- that takes it; a round of the watch loop has one for what it tests and one for what it records.
-- Mutexes are not modelled: an operation that holds one is a single step. In Alerts the alert queue has
-- no capacity; Lifecycle has its capacity, and an alert that finds it full waits there. Map order is the
-- list's order, and no theorem depends on it. Code outside the repository is a parameter: `Remote` (the
-- HTTP client, the service clients and their errors), `Json` (encoding/json for the state file), `Wire`
-- and `Frames` (encoding/json for events and messages), `Float` (float64 arithmetic and its formatting),
-- `Rpc` (the RPC clients of nodes), `Queries` (the validator queries), `Node` (the client and the packages
-- under those queries), `Crypto` (Argon2id, AES, HMAC, Base64 and the password validator), `Net` (url.Parse
-- and the dialer), `Source` (the files, the download and the YAML decoder of the configuration), `Pages`
-- (encoding/json and the redaction for the dashboard).
--
-- Loops are structural recursion over lists. The retry loop of PagerDuty recurs on the attempts that are
-- left, which the source bounds by `pagerDutyMaxAttempts`; the decimal printer's fuel is the number
-- itself, which each round divides by ten. No definition can run out of fuel. The loop in which WsRun
-- waits for an endpoint takes a list of looks at the chain, and a theorem says how many are enough. The
-- zero websocket.Conn that NewClientContext returns for a Unix socket panics at its first use, which is an
-- outcome of WsRun and of monitorChain.
--
-- Not modelled: network and file I/O itself, the HTTP servers and their headers (seer/dashboard/server.go,
-- seer/prometheus.go), the tickers and the signals (seer/run.go), the wiring of the adapter's
-- HTTP client (seer/cometbft_adapter.go), main itself (main.go), and log lines.
pub mod Prelude
pub mod AlarmCache
pub mod Notify
pub mod Config
pub mod Alerts
pub mod Metrics
pub mod Blocks
pub mod Nodes
pub mod SavedState
pub mod Startup
pub mod Validator
pub mod Encryption
pub mod Socket
pub mod Lifecycle
pub mod Supervision
pub mod Loading
pub mod Server
pub mod Command
pub mod Baseline
pub mod Examples
