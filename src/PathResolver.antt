-- ===== src/PathResolver.antt =====
-- The identifiers and storage paths of the control plane (internal/pathresolver).
pub mod Id
pub mod Repo
pub mod Path
pub mod Traversal
