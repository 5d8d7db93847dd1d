-- ===== src/Server.antt =====
-- The dashboard's server: seer/dashboard/server.go.
mod Serve
pub mod Kept
unfoldable pub use Serve.*
