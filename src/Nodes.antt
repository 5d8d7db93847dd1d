-- ===== src/Nodes.antt =====
-- The RPC endpoints of a chain: seer/rpc.go.
mod Registry
mod Select
mod Health
pub mod Chosen
pub mod Paths
pub mod Outage
unfoldable pub use Registry.*
unfoldable pub use Select.*
unfoldable pub use Health.*
