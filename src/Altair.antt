-- ===== src/Altair.antt =====
-- ethereum-consensus/src/altair: the altair state transition.
pub mod Shared
pub mod Consistent
pub mod Spec
pub mod Flags
pub mod Participation
pub mod Deltas
pub mod SyncCommittee
pub mod Slashing
pub mod EpochProcessing
pub mod BlockProcessing
pub mod Attestations
pub mod SyncAggregate
pub mod Transition
pub mod Upgrade
