-- ===== src/Vs.antt =====
-- The front end for Visual C++ (src/vs).
pub mod Prepare
pub mod Postprocess
pub mod Steps
mod Tests
