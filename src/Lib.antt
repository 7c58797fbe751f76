-- ===== src/Lib.antt =====
-- The state transitions of phase0, altair and bellatrix of ethereum_consensus, the crate in
-- ethereum-consensus/ (the sources are in ethereum-consensus/src, and the paths below are from there):
-- slots, epochs and blocks, as functions on the beacon state; the state at genesis, the upgrades from
-- phase0 to altair and from there to bellatrix, the schedule of the forks, and the clock.
--
-- The parts, and the files that model them:
--   Types        the structs of phase0/operations.rs, beacon_block.rs, beacon_state.rs and
--                validator.rs, the scalars of primitives.rs, the fields of the Context of
--                state_transition/context.rs that the code reads, and (in Types.Altair and
--                Types.Bellatrix) the structs and constants of altair/ and bellatrix/
--   Errors       the errors of error.rs that phase0, altair and bellatrix return
--   Outcome      how a function that only reads the state ends: a value, an Err, or a fault
--   Action       functions that take `&mut BeaconState`, in the style of a state monad; below it are
--                the rules for what an action keeps (Keeps) and for actions that change nothing
--                unless they return (Atomic)
--   Env          what every function is given: the Context, the const generics, and the functions of
--                other crates
--   Shape        the slot, the lengths of the vectors, and that each validator has a balance
--   Helpers      phase0/helpers.rs, signing.rs and domains.rs: Predicates, Epochs, Accessors,
--                Shuffling, Committees, Domains, Balances, Attestations, Exits
--   EpochProcessing  phase0/epoch_processing.rs: Matching, Justification, Rewards, Registry,
--                Penalties, Resets, and process_epoch in Process
--   BlockProcessing  phase0/block_processing.rs: Header, Randao, Slashings, Attestations, Deposits,
--                Exits, and process_operations and process_block in Process
--   Transition   phase0/slot_processing.rs and state_transition.rs
--   Genesis      phase0/genesis.rs
--   Forks        fork.rs, and fork_for and fork_version_for of state_transition/context.rs
--   Clock        clock.rs, with the time as an argument
--   RegistrySize what leaves the number of validators as it is
--   History      what leaves the slot and the block roots as they are
--   Altair       altair/. Shared is the part of the state that phase0 has too, and Spec the
--                accessors of altair/spec/mod.rs on it; Flags, Participation, Deltas,
--                SyncCommittee and Slashing are helpers.rs; EpochProcessing is
--                epoch_processing.rs; BlockProcessing, Attestations and SyncAggregate are
--                block_processing.rs; Transition is the end of spec/mod.rs, and Upgrade fork.rs.
--                Consistent says which lists have an entry for each validator
--   Bellatrix    bellatrix/. Shared is the part of the state that altair has too; Spec and Helpers
--                are the accessors of bellatrix/spec/mod.rs and two functions of helpers.rs;
--                Payload is the rest of helpers.rs, process_execution_payload and
--                execution_engine.rs; EpochProcessing, BlockProcessing and Transition are
--                epoch_processing.rs, block_processing.rs and state_transition.rs with the end of
--                spec/mod.rs, and Upgrade fork.rs. InStep is Consistent on that part of the state
--   Prelude      numbers, lists, byte strings, sets and sorts that the others share
--   Tests        a chain of four validators, and the theorems at states of it
-- Proofs stand in child modules of the module whose definitions they open. A definition has the name
-- of the function that it models. A function of the source that is long is split into helpers, each
-- with a comment on the part that it models.
--
-- How the code is read:
--   - The code is that of a release build on a 64-bit machine, so `+`, `-` and `*` on u64 and usize
--     wrap around: wrapping_add, wrapping_sub and wrapping_mul. `checked_add` returns its error.
--   - An index out of bounds, a division by zero and a failed `unwrap` or `expect` are
--     `fault panic`.
--   - An action returns the state beside its result also where it ends in an error or a fault,
--     since what was written before an early return stays written.
--   - A HashSet is a list without duplicates in the order of insertion. `sort` is an insertion sort.
--   - The bounds of the SSZ lists are left out, and with them the errors of a push onto a full list.
--     The lengths of the SSZ vectors are not part of the types, but of Shape.
--   - The hash, the signature checks, hash tree roots, the Merkle branch check and the integer square
--     root are of other crates (sha2, blst, ssz_rs and integer-sqrt), and stand as fields of Env. The
--     theorems on the shuffle use that a hash has thirty-two bytes.
--   - altair/spec/mod.rs is generated: it repeats functions of phase0 with the state of altair in
--     their signatures. Such a function is the one of phase0, on the shared part of the altair state.
--     A function that calls one that altair has anew is written out.
--   - bellatrix/spec/mod.rs repeats functions of phase0 and altair in the same way, and bellatrix/ has
--     its own slash_validator, get_inactivity_penalty_deltas and process_slashings, which are those
--     of altair with other quotients. A step of bellatrix is that of altair on the shared part of the
--     state, with the quotients of bellatrix in the place of those of altair (bellatrix_env); what
--     takes the root of a state, a block or a body is written out. The execution engine of the
--     client is an argument, a function of the payload: the trait has one method, which takes
--     `&self`.
--   - process_slots recurs on the number of slots that are left. compute_proposer_index
--     and get_next_sync_committee_indices loop without a bound in the source, and on the fuel of Env
--     here; a run that uses it up is `fault out_of_fuel`. As much fuel as there are active validators
--     is enough for the first, where one of them has the maximal effective balance, and 255 times that
--     balance is a 64-bit word.
--   - The clock counts in 128-bit words, which wrap around too.
--
-- Not modelled are the forks after bellatrix, the genesis of altair and of bellatrix, the executor over all forks, the
-- system time and the clocks of the known networks, the loading of configurations, and what only wraps
-- other crates or moves data: SSZ, serde, BLS, the light client's types, the API client, the command
-- line tools and the generators.
pub mod Action
pub mod Altair
pub mod Bellatrix
pub mod BlockProcessing
pub mod Clock
pub mod Env
pub mod EpochProcessing
pub mod Errors
pub mod Forks
pub mod Genesis
pub mod Helpers
pub mod History
pub mod Outcome
pub mod Prelude
pub mod RegistrySize
pub mod Shape
pub mod Tests
pub mod Transition
pub mod Types
