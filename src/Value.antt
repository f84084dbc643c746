-- ===== src/Value.antt =====
-- The Python values that travel as JSON, and the dictionary operations that the services use.
mod Data
mod Dict
pub mod Codec
unfoldable pub use Data.*
unfoldable pub use Dict.*
