-- ===== src/Base.antt =====
-- Shared notation: library names passed on, Boolean tests, machine words, arrays and byte lists.
mod Tests
mod Words
mod Lists
mod Arrays
mod Int
mod Bits
pub use Tests.*
pub use Words.*
unfoldable pub use Lists.*
unfoldable pub use Arrays.*
pub use Int.*
pub use Bits.*
