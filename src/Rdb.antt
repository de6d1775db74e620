-- ===== src/Rdb.antt =====
-- src/rdb: the snapshot format.
pub mod Words
pub mod Crc64
pub mod Lzf
pub mod Cursor
pub mod Write
mod Tests
