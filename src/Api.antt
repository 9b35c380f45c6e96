-- ===== src/Api.antt =====
-- internal/api/admin.go: the admin control plane.
pub mod Http
pub mod Gate
pub mod Routes
pub mod Transfer
pub mod WriteFile
pub mod PushHost
pub mod Grants
