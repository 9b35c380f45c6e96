-- ===== src/Exec.antt =====
pub mod Jobs
pub mod Events
pub mod Stream
pub mod Index
