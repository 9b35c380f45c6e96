-- ===== src/Admin.antt =====
pub mod Election
pub mod Files
