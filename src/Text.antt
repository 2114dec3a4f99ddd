-- ===== src/Text.antt =====
-- Strings of the source: sequences of UTF-16 code units, with the operations of the language's
-- `String` that the program calls.
mod Defs
pub mod Decimal
pub mod Integer
pub mod Splitting
unfoldable pub use Defs.*
