-- ===== src/Antiflood.antt =====
-- Protection against floods (sophie_bot/modules/antiflood).
pub mod Settings
pub mod Enforcer
pub mod Streak
pub mod Burst
mod Tests
