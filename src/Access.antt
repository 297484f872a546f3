-- ===== src/Access.antt =====
-- Who may do what with a workspace: src/core/workspace/lib (access.js, WorkspaceMembers.js,
-- WorkspaceTokens.js).
pub mod Permissions
pub mod Groups
pub mod Resolve
pub mod Members
pub mod Tokens
mod Tests
