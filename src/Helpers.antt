-- ===== src/Helpers.antt =====
-- ethereum-consensus/src/phase0/helpers.rs: predicates on validators and attestations, accessors of
-- the state, shuffling and committees, signature domains, and the exit and the slashing of a
-- validator. Functions that read the state take it last.
pub mod Predicates
pub mod Epochs
pub mod Accessors
pub mod Shuffling
pub mod Committees
pub mod Domains
pub mod Balances
pub mod Attestations
pub mod Exits
