-- ===== src/Transition.antt =====
-- ethereum-consensus/src/phase0/slot_processing.rs and state_transition.rs: slots, and the whole
-- transition. `process_slots` recurs on the slots that are left, which it counts at its start.
pub mod Accepted
pub mod History
pub mod Slots
use ethereum_consensus.Prelude.{
  ℕ, zero, suc, ◌-◌, not, set, ltb, leb, ◌==◌, if◌then◌else◌, wrapping_add,
}
use ethereum_consensus.Prelude.Bytes.{bytes_eq}
use ethereum_consensus.Types.{
  Root, Slot, BeaconState, SignedBeaconBlock, Validation, enabled, disabled, default_root,
}
use ethereum_consensus.Errors.{transition_to_previous_slot, invalid_state_root}
use ethereum_consensus.Outcome.{fault, out_of_fuel, index, rem}
use ethereum_consensus.Action.{Action, read, gets, lift, modify, pure, guard_not, ◌>>=◌, ◌>>◌}
use ethereum_consensus.Env.{Env, state_object, header_object}
use ethereum_consensus.Helpers.Domains.{verify_block_signature}
use ethereum_consensus.BlockProcessing.Header.{with_header}
use ethereum_consensus.BlockProcessing.Process.{process_block}
use ethereum_consensus.EpochProcessing.Process.{process_epoch}

-- `state.state_roots[i] = root` and `state.block_roots[i] = root`, which panic out of bounds
unfoldable pub write_state_root : ℕ → Root → Action (Unit {0})
write_state_root i root = do
  _ ← read (λ state. index state.state_roots i)
  modify (λ state. record state { state_roots = set state.state_roots i root })

unfoldable pub write_block_root : ℕ → Root → Action (Unit {0})
write_block_root i root = do
  _ ← read (λ state. index state.block_roots i)
  modify (λ state. record state { block_roots = set state.block_roots i root })

-- Fills in the state root of the latest header, where it is still the default.
unfoldable pub fill_state_root : Root → BeaconState → BeaconState
fill_state_root root state =
    if bytes_eq state.latest_block_header.state_root default_root
    then with_header (record state.latest_block_header { state_root = root }) state
    else state

unfoldable pub with_slot : Slot → BeaconState → BeaconState
with_slot slot state = record state { slot = slot }

module _ (env : Env) where
  open env use {context, externals}

  unfoldable pub process_slot : Action (Unit {0})
  process_slot = do
    previous_state_root ← read (λ state. externals.hash_tree_root (state_object state))
    i ← read (λ state. rem state.slot context.slots_per_historical_root)
    write_state_root i previous_state_root
    modify (fill_state_root previous_state_root)
    previous_block_root ←
        read (λ state. externals.hash_tree_root (header_object state.latest_block_header))
    j ← read (λ state. rem state.slot context.slots_per_historical_root)
    write_block_root j previous_block_root

  -- The body of the `while` loop.
  unfoldable pub advance_slot : Action (Unit {0})
  advance_slot = do
    process_slot
    phase ← read (λ state. rem (wrapping_add state.slot 1) context.slots_per_epoch)
    if phase == 0 then process_epoch env else pure tt
    modify (λ state. with_slot (wrapping_add state.slot 1) state)

  -- `while state.slot < slot`
  unfoldable pub slots_loop : ℕ → Slot → Action (Unit {0})
  slots_loop zero target = do
    slot ← gets (λ state. state.slot)
    if ltb slot target then lift (fault out_of_fuel) else pure tt
  slots_loop (suc fuel) target =
      let rest = advance_slot >> slots_loop fuel target in
      do slot ← gets (λ state. state.slot); if ltb slot target then rest else pure tt

  unfoldable pub process_slots : Slot → Action (Unit {0})
  process_slots target = do
    slot ← gets (λ state. state.slot)
    guard_not (leb target slot) (transition_to_previous_slot slot target)
    slots_loop (target - slot) target

  unfoldable pub state_transition_block_in_slot : SignedBeaconBlock → Validation → Action (Unit {0})
  state_transition_block_in_slot signed_block disabled = process_block env signed_block.message
  state_transition_block_in_slot signed_block enabled = do
    read (verify_block_signature env signed_block)
    process_block env signed_block.message
    root ← read (λ state. externals.hash_tree_root (state_object state))
    guard_not (not (bytes_eq signed_block.message.state_root root)) invalid_state_root

  unfoldable pub state_transition : SignedBeaconBlock → Validation → Action (Unit {0})
  state_transition signed_block validation = do
    process_slots signed_block.message.slot
    state_transition_block_in_slot signed_block validation
