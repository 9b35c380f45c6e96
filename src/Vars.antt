-- ===== src/Vars.antt =====
pub mod Store
pub mod Handlers
