-- ===== src/Systemd.antt =====
-- internal/systemd: the units of systemd and their journal.
pub mod Journal
pub mod Tasks
pub mod Units
