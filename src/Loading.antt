-- ===== src/Loading.antt =====
-- What the process reads before it starts: loadConfig and loadChainConfig (seer/types.go), and the start
-- itself in Run (seer/run.go).
mod Load
mod Process
pub mod Remote
pub mod Chains
unfoldable pub use Load.*
unfoldable pub use Process.*
