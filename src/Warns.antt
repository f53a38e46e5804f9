-- ===== src/Warns.antt =====
-- Warns of users and what follows from too many (sophie_bot/modules/warns).
pub mod Settings
pub mod Upsert
pub mod Warn
pub mod Threshold
mod Tests
