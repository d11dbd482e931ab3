-- ===== src/Server.antt =====
-- server.cpp: the Server's control thread.
pub mod Engine
pub mod State
pub mod Control
pub mod Conditions
pub mod Query
pub mod Dispatch
pub mod Sessions
pub mod Loop
pub mod Lifecycle
pub mod Access
pub mod Reports
pub mod Ending
pub mod Announce
pub mod LeaseKept
pub mod Invariant
pub mod Startup
