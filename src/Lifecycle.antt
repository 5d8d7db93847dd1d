-- ===== src/Lifecycle.antt =====
-- Start and shutdown of the process: seer/run.go.
mod Process
pub mod Invariant
pub mod Moves
pub mod Safety
pub mod Termination
pub mod Liveness
pub mod Shutdown
unfoldable pub use Process.*
