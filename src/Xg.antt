-- ===== src/Xg.antt =====
-- The build scripts of XGE (src/xg).
pub mod Parser
