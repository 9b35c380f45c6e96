-- ===== src/State.antt =====
-- internal/state/epoch.go: the node's configuration epoch, in memory and in its file.
pub mod Epoch
