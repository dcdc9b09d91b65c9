-- ===== src/Clang.antt =====
-- The front end for clang (src/clang).
pub mod Prepare
pub mod Steps
mod Tests
