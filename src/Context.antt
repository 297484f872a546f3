-- ===== src/Context.antt =====
-- Contexts: src/core/context/lib (Context.js, Url.js).
pub mod Sharing
pub mod Url
pub mod Navigation
mod Tests
