-- ===== src/Cmd.antt =====
-- Splitting one line into command line arguments (src/cmd): `Unix` and `Windows` are the parsers
-- of the two platforms, and `Words` is the plain splitting that both extend.
pub mod Words
pub mod Unix
pub mod Windows
mod Tests
