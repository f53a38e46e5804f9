-- ===== src/Restrictions.antt =====
-- sophie_bot/modules/restrictions/utils/restrictions.py and the snapshot document of
-- sophie_bot/db/models/mute_permissions.py: how a mute remembers what it took away.
pub mod Model
pub mod Apply
pub mod Restore
pub mod Execute
pub mod Ownership
pub mod RoundTrip
mod Tests
