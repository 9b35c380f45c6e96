-- ===== src/Tests.antt =====
-- Runs of the definitions on concrete inputs, and the theorems at concrete data.
mod Base
mod Access
mod Vars
mod Api
mod Routes
mod Invite
mod Admin
mod Exec
mod Identity
mod Services
mod Systemd
mod Provision
mod Scopes
mod WriteFile
mod Files
mod Config
mod Hosts
mod Metrics
