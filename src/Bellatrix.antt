-- ===== src/Bellatrix.antt =====
-- ethereum-consensus/src/bellatrix: what bellatrix adds to altair, and what it takes from it.
pub mod Shared
pub mod InStep
pub mod Spec
pub mod Helpers
pub mod Payload
pub mod EpochProcessing
pub mod BlockProcessing
pub mod Transition
pub mod Upgrade
