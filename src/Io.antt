-- ===== src/Io.antt =====
-- Streams and binary records (src/io): `Stream` has the interfaces of `Read` and `Write`, which the
-- other modules take as parameters or implement.
pub mod Stream
pub mod Binary
pub mod FileCache
pub mod MemStream
mod Tests
