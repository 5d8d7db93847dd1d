-- ===== src/Encryption.antt =====
-- The encryption of the configuration file: seer/encryption.go.
mod Cipher
mod Files
pub mod Slices
pub mod Padding
pub mod RoundTrip
pub mod Authentic
pub mod Conversion
unfoldable pub use Cipher.*
unfoldable pub use Files.*
