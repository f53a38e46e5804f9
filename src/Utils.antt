-- ===== src/Utils.antt =====
-- Helpers that the modules of the bot share (sophie_bot/utils).
pub mod Pagination
pub mod RateLimit
mod Tests
