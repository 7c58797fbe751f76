-- ===== src/Altair/Transition.antt =====
-- ethereum-consensus/src/altair/spec/mod.rs: slots, and the whole transition.
pub mod Loop
pub mod Shape
use ethereum_consensus.Prelude.{
  ℕ, zero, suc, ◌-◌, not, length, get_elem?, none, ltb, leb, ◌==◌, if◌then◌else◌, wrapping_add,
}
use ethereum_consensus.Prelude.Bytes.{bytes_eq}
use ethereum_consensus.Types.{Slot, Validation, enabled, disabled, beacon_proposer}
use ethereum_consensus.Types.Altair.{BeaconState, SignedBeaconBlock}
use ethereum_consensus.Errors.{transition_to_previous_slot, invalid_state_root, out_of_bounds}
use ethereum_consensus.Outcome
use ethereum_consensus.Outcome.{Outcome, fault, out_of_fuel, ok_or, rem}
use ethereum_consensus.Action.{StateAction, read, gets, lift, modify, pure, guard_not, ◌>>=◌, ◌>>◌}
use ethereum_consensus.Env.{Env, altair_state_object, altair_block_object, header_object}
use ethereum_consensus.Helpers.Domains.{compute_signing_root}
use ethereum_consensus.Transition as Phase0
use ethereum_consensus.Altair.Shared.{on_shared}
use ethereum_consensus.Altair.Spec.{get_domain}
use ethereum_consensus.Altair.BlockProcessing.{process_block}
use ethereum_consensus.Altair.EpochProcessing.{process_epoch}

module _ (env : Env) where
  open env use {context, externals}

  unfoldable pub process_slot : StateAction BeaconState (Unit {0})
  process_slot = do
    previous_state_root ← read (λ state. externals.hash_tree_root (altair_state_object state))
    i ← read (λ state. rem state.slot context.slots_per_historical_root)
    on_shared (Phase0.write_state_root i previous_state_root)
    on_shared (modify (Phase0.fill_state_root previous_state_root))
    previous_block_root ←
        read (λ state. externals.hash_tree_root (header_object state.latest_block_header))
    j ← read (λ state. rem state.slot context.slots_per_historical_root)
    on_shared (Phase0.write_block_root j previous_block_root)

  -- The body of the `while` loop.
  unfoldable pub advance_slot : StateAction BeaconState (Unit {0})
  advance_slot = do
    process_slot
    phase ← read (λ state. rem (wrapping_add state.slot 1) context.slots_per_epoch)
    if phase == 0 then process_epoch env else pure tt
    on_shared (modify (λ state. Phase0.with_slot (wrapping_add state.slot 1) state))

  -- `while state.slot < slot`
  unfoldable pub slots_loop : ℕ → Slot → StateAction BeaconState (Unit {0})
  slots_loop zero target = do
    slot ← gets (λ state. state.slot)
    if ltb slot target then lift (fault out_of_fuel) else pure tt
  slots_loop (suc fuel) target =
      let rest = advance_slot >> slots_loop fuel target in
      do slot ← gets (λ state. state.slot); if ltb slot target then rest else pure tt

  unfoldable pub process_slots : Slot → StateAction BeaconState (Unit {0})
  process_slots target = do
    slot ← gets (λ state. state.slot)
    guard_not (leb target slot) (transition_to_previous_slot slot target)
    slots_loop (target - slot) target

  unfoldable pub verify_block_signature : SignedBeaconBlock → BeaconState → Outcome (Unit {0})
  verify_block_signature signed_block state =
      let proposer_index = signed_block.message.proposer_index in
      Outcome.◌>>=◌
        (ok_or (get_elem? state.validators proposer_index)
          (out_of_bounds proposer_index (length state.validators)))
        λ proposer. Outcome.◌>>=◌ (get_domain env beacon_proposer none state) λ domain.
          Outcome.◌>>=◌ (compute_signing_root env (altair_block_object signed_block.message) domain)
            λ signing_root.
              externals.verify_signature proposer.public_key signing_root signed_block.signature

  unfoldable pub state_transition_block_in_slot :
      SignedBeaconBlock → Validation → StateAction BeaconState (Unit {0})
  state_transition_block_in_slot signed_block disabled = process_block env signed_block.message
  state_transition_block_in_slot signed_block enabled = do
    read (verify_block_signature signed_block)
    process_block env signed_block.message
    root ← read (λ state. externals.hash_tree_root (altair_state_object state))
    guard_not (not (bytes_eq signed_block.message.state_root root)) invalid_state_root

  unfoldable pub state_transition :
      SignedBeaconBlock → Validation → StateAction BeaconState (Unit {0})
  state_transition signed_block validation = do
    process_slots signed_block.message.slot
    state_transition_block_in_slot signed_block validation
