-- ===== src/Validator.antt =====
-- The refresh of a validator's state: GetValInfo of seer/validator.go.
mod Refresh
mod Adapter
pub mod Published
pub mod Answers
unfoldable pub use Refresh.*
unfoldable pub use Adapter.*
