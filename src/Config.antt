-- ===== src/Config.antt =====
-- internal/config: the files that configure the node.
pub mod Loading
pub mod Vars
pub mod Files
pub mod Integrations
pub mod Logging
pub mod Host
