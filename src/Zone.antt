-- ===== src/Zone.antt =====
-- The zone server's sessions: rgtd/zone/ZoneAgentMgr.cpp, ZoneAgent.cpp and the files of
-- rgtd/zone/account.
pub mod RoleId
pub mod World
pub mod Session
pub mod Login
pub mod SessionMgr
pub mod Messages
pub mod Send
pub mod Saving
pub mod Stale
pub mod Kept
pub mod Primitives
pub mod Keeping
pub mod LoginKeeping
pub mod Answers
pub mod Tables
pub mod Reachable
pub mod Total
pub mod Stopping
pub mod Faults
pub mod RoleHandler
pub mod Roles
pub mod Relogin
pub mod Dangling
