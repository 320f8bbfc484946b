-- ===== src/Bytes.antt =====
-- The bytes of a file, and the little-endian values that are stored in them.
pub mod Codec
pub mod Store
pub mod Words
