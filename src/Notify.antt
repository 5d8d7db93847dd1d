-- ===== src/Notify.antt =====
-- The notification sender of seer/alert.go: the messages it builds and the four notify functions.
mod Messages
mod Send
pub mod Reservation
pub mod Delivery
pub mod Services
unfoldable pub use Messages.*
unfoldable pub use Send.*
