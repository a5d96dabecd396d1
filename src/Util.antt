-- ===== src/Util.antt =====
-- pkg/util: the helpers on byte slices and on streams. Numerals is what the program uses of strconv and encoding/hex.
pub mod Zeros
pub mod Numerals
pub mod Strms
