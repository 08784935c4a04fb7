-- ===== src/Tests.antt =====
-- The theorems at concrete inputs.
pub mod Floor
pub mod Audio
pub mod Rooms
pub mod Places
pub mod Accounts
pub mod Clients
pub mod Requests
pub mod Tables
