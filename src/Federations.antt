-- ===== src/Federations.antt =====
-- Federations of chats (sophie_bot/modules/federations).
pub mod Model
pub mod Cache
pub mod Ban
pub mod Query
pub mod Lazy
pub mod Records
pub mod Manage
pub mod Chats
pub mod Resolve
pub mod Admins
pub mod Enforce
pub mod Chain
pub mod Subscribers
mod Tests
