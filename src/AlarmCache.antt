-- ===== src/AlarmCache.antt =====
-- The delivery state of seer/alert.go: the alert message, the four destinations, and the cache that
-- prevents double notifications. A method that mutates the cache returns the new cache.
--
-- Go's nil maps and empty maps read alike, and every write of the code to a map that may be nil is
-- behind the `make` that replaces it, so both are the empty map here. `time.Now()` is the argument
-- `now`. Both locks are held for a whole method, so a method is one step.
mod Defs
pub mod Phase
pub mod Trace
pub mod Dashboard
unfoldable pub use Defs.*
