-- ===== src/Gate.antt =====
-- The access checks in front of the routes: src/transports/middleware (workspace-acl.js,
-- agent-acl.js).
pub mod Uuid
pub mod Request
pub mod Lookup
pub mod Workspace
pub mod Scope
pub mod Clamp
pub mod Agent
mod Tests
