-- ===== src/Access.antt =====
-- internal/access/registry.go: who may do what on this node.
pub mod Registry
