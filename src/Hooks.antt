-- ===== src/Hooks.antt =====
-- The automation of a workspace: src/core/workspace/services/hook.
pub mod Pending
pub mod Rules
pub mod Keys
pub mod Dispatch
