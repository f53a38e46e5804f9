-- ===== src/FeatureFlags.antt =====
-- Feature flags with their overrides and rollouts (sophie_bot/utils/feature_flags.py).
pub mod Numbers
pub mod Values
pub mod Flags
pub mod Definitions
pub mod Rollouts
pub mod Store
pub mod Service
pub mod Coherence
pub mod Spec
pub mod Listing
mod Tests
