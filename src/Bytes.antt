-- ===== src/Bytes.antt =====
-- Byte buffers as the codecs use them: slices, `copy_from_slice`, and little-endian words.
-- A byte is a number below 256, a buffer a list of them.
mod Defs
mod Slices
mod Words
mod Append
unfoldable pub use Defs.{slice, copy_at, zeros, le_bytes, from_le}
pub use Defs.{IsByte, U8, U16, U32, U64, eq_bytes, all_zero, u16_at, u32_at, u64_at, byte_at}
pub use Slices.*
pub use Words.*
pub use Append.*
