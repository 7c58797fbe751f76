-- ===== src/EpochProcessing.antt =====
-- ethereum-consensus/src/phase0/epoch_processing.rs: what happens at the end of an epoch.
pub mod Matching
pub mod Justification
pub mod Rewards
pub mod Registry
pub mod Penalties
pub mod Resets
pub mod Process
