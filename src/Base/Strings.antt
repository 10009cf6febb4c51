-- ===== src/Base/Strings.antt =====
-- Go strings as lists of bytes, and the parts of package strings that the program calls.
mod Defs
mod Equality
mod Cutting
unfoldable pub use Defs.*
pub use Equality.*
pub use Cutting.*
