-- ===== src/Shared.antt =====
-- What the modules that keep lists of configured actions share (sophie_bot/shared).
pub mod Actions
