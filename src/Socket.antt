-- ===== src/Socket.antt =====
-- The websocket of a chain: seer/ws.go, but for the result worker, which is in Blocks.
mod Client
mod Messages
mod Session
pub mod Addresses
pub mod Endpoint
pub mod Idle
pub mod Patience
pub mod Pipeline
unfoldable pub use Client.*
unfoldable pub use Messages.*
unfoldable pub use Session.*
