-- ===== src/Alerts.antt =====
-- The alerts of seer/alert.go: how one is queued, and the alarms that raise and resolve them.
mod Ingress
mod Stalled
mod Percentage
mod Watch
pub mod Alternation
pub mod StalledTrace
pub mod WatchTrace
unfoldable pub use Ingress.*
unfoldable pub use Stalled.*
unfoldable pub use Percentage.*
unfoldable pub use Watch.*
