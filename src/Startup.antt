-- ===== src/Startup.antt =====
-- What a start does with its configuration: validateConfig of seer/types.go.
mod Validate
pub mod Completed
unfoldable pub use Validate.*
