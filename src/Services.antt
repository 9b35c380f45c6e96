-- ===== src/Services.antt =====
pub mod Registry
pub mod Push
