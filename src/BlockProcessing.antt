-- ===== src/BlockProcessing.antt =====
-- ethereum-consensus/src/phase0/block_processing.rs: what a block does to the state.
pub mod Header
pub mod Randao
pub mod Slashings
pub mod Attestations
pub mod Deposits
pub mod Exits
pub mod Process
