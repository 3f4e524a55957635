-- ===== src/Prelude/Text.antt =====
-- What the code uses of Go's `strings`, over native texts. A separator is one character, given by
-- its code. `none` of `strip_prefix` and `strip_suffix` says that the text is not there.
pub mod Affix
pub mod Split
pub mod Slice
unfoldable pub use Affix.*
unfoldable pub use Split.*
unfoldable pub use Slice.*
