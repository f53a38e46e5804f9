-- ===== src/Federations/Tests.antt =====
-- The federation services on two federations that subscribe to each other: runs, and the theorems
-- at that state.
mod State
mod Chains
mod Bans
mod Management
