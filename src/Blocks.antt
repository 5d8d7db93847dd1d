-- ===== src/Blocks.antt =====
-- The block and vote events of a chain: seer/rpc_contract.go, seer/cometbft_adapter.go, the result
-- worker of seer/ws.go and the block results of seer/runtime_state.go.
mod Events
mod Worker
pub mod Classified
pub mod Results
pub mod Rounds
unfoldable pub use Events.*
unfoldable pub use Worker.*
