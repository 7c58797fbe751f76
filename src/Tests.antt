-- ===== src/Tests.antt =====
-- A small chain, and the theorems at states of it.
mod Run
mod AltairRun
mod BellatrixRun
mod Samples
mod Helpers
mod Epochs
mod Blocks
mod Slots
mod Altair
mod Bellatrix
mod Clock
mod Genesis
