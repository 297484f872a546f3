-- ===== src/Workspaces/Indexes.antt =====
-- The users' indexes of src/core/workspace/index.js and the lookup tables over them. A user's index file is a dictionary
-- of entries; `#getUserIndex` opens it, and one that is not there yet is empty. `order` is the order in which
-- `#knownUserIds` names the users.
pub mod Defs
pub mod Puts
pub mod Consistent
pub mod Added
pub mod Walked
pub mod Found
pub mod Edited
pub mod Tables
pub mod Rebuilt
pub mod Dropped
