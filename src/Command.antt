-- ===== src/Command.antt =====
-- The command line: main.go.
mod Flags
mod App
pub mod State
pub mod Exit
unfoldable pub use Flags.*
unfoldable pub use App.*
