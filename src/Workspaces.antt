-- ===== src/Workspaces.antt =====
-- src/core/workspace/index.js: the workspace manager, in its children. References names workspaces, Indexes keeps the
-- users' indexes and the lookup tables over them, Names resolves names to ids, Guarded decides who reaches a workspace,
-- Registry creates, registers, transfers and removes workspaces.
pub mod References
pub mod Indexes
pub mod Suffix
pub mod Guarded
pub mod Names
pub mod Registry
pub mod Imports
pub mod Sharing
pub mod ShareTokens
pub mod Remotes
mod Tests
