-- ===== src/Gate.antt =====
-- The gate server: gate/GateServerHandler.cpp.
pub mod Connection
pub mod Server
pub mod Client
pub mod Receive
pub mod Reports
pub mod Cutting
pub mod Pieces
pub mod Posting
pub mod Framing
pub mod Table
pub mod Removal
pub mod Closing
pub mod Shutdown
pub mod Agent
pub mod Delivery
pub mod Broken
pub mod Sound
