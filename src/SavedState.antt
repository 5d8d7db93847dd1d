-- ===== src/SavedState.antt =====
-- The durable state file: seer/state.go.
mod Decode
mod Load
mod Replace
mod Restore
pub mod Recovery
pub mod Atomicity
pub mod RoundTrip
pub mod Restoration
unfoldable pub use Decode.*
unfoldable pub use Load.*
unfoldable pub use Replace.*
unfoldable pub use Restore.*
