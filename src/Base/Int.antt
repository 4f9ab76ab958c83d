-- ===== src/Base/Int.antt =====
-- Integers over the native numbers: the type with its operations, and the ways to round a
-- quotient.
mod Defs
mod Rounding
pub use Rounding.*
unfoldable pub use Defs.*
