-- ===== src/Prelude/Text.antt =====
-- Go strings as lists of bytes, and the functions of package strings that the program calls.
mod Basic
mod Splitting
mod Prefix
unfoldable pub use Basic.*
unfoldable pub use Splitting.*
unfoldable pub use Prefix.*
