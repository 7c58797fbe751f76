-- ===== src/Altair/Participation.antt =====
-- ethereum-consensus/src/altair/helpers.rs: who took part in an epoch, and the flags that an
-- attestation earns.
use ethereum_consensus.Prelude.{ℕ, Bool, not, ◌&&◌, List, [], ◌∷◌, ◌++◌, leb, ◌==◌, if◌then◌else◌}
use ethereum_consensus.Prelude.Bytes.{bytes_eq}
use ethereum_consensus.Prelude.Sets.{from_iter}
use ethereum_consensus.Types.{
  Slot, Epoch, ValidatorIndex, Validator, AttestationData, checkpoint_eq,
}
use ethereum_consensus.Types.Altair.{
  ParticipationFlags, BeaconState, timely_source_flag_index, timely_target_flag_index,
  timely_head_flag_index,
}
use ethereum_consensus.Errors.{invalid_epoch, invalid_operation_error, attestation, invalid_source}
use ethereum_consensus.Outcome.{Outcome, ok, fail_if, index, ◌>>=◌, ◌>>◌}
use ethereum_consensus.Env.{Env}
use ethereum_consensus.Altair.Spec.{
  get_active_validator_indices, get_current_epoch, get_previous_epoch, get_block_root,
  get_block_root_at_slot,
}
use ethereum_consensus.Altair.Flags.{has_flag}

-- The filter over the active validators, whose two lookups panic out of bounds.
unfoldable pub participating :
    ℕ
    → List ParticipationFlags
    → List Validator
    → List ValidatorIndex
    → Outcome (List ValidatorIndex)
participating flag_index flags validators [] = ok []
participating flag_index flags validators (i ∷ indices) = do
  f ← index flags i
  v ← index validators i
  rest ← participating flag_index flags validators indices
  ok (if has_flag f flag_index && not v.slashed then i ∷ rest else rest)

module _ (env : Env) where
  open env use {context, externals}

  unfoldable pub get_unslashed_participating_indices :
      ℕ → Epoch → BeaconState → Outcome (List ValidatorIndex)
  get_unslashed_participating_indices flag_index epoch state = do
    previous_epoch ← get_previous_epoch env state
    current_epoch ← get_current_epoch env state
    fail_if (not (previous_epoch == epoch) && not (current_epoch == epoch))
        (invalid_epoch epoch previous_epoch current_epoch)
    let flags =
        if epoch == current_epoch
        then state.current_epoch_participation
        else state.previous_epoch_participation
    indices ←
        participating flag_index flags state.validators (get_active_validator_indices epoch state)
    ok (from_iter indices)

  -- `is_matching_target && data.beacon_block_root == get_block_root_at_slot(...)?`
  unfoldable pub is_matching_head : Bool → AttestationData → BeaconState → Outcome Bool
  is_matching_head is_matching_target d state =
      if is_matching_target
      then (do
        root ← get_block_root_at_slot env d.slot state
        ok (bytes_eq d.beacon_block_root root))
      else ok is_matching_target

  -- The pushes onto the list, where the source and the other two match.
  unfoldable pub earned_flags : Bool → Bool → Slot → List ℕ
  earned_flags is_target is_head inclusion_delay =
      let is_prompt = leb inclusion_delay (externals.integer_sqrt context.slots_per_epoch) in
      let is_in_epoch = leb inclusion_delay context.slots_per_epoch in
      let is_next = inclusion_delay == context.min_attestation_inclusion_delay in
      (if is_prompt then timely_source_flag_index ∷ [] else [])
      ++ ((if is_target && is_in_epoch then timely_target_flag_index ∷ [] else [])
          ++ (if is_head && is_next then timely_head_flag_index ∷ [] else []))

  unfoldable pub get_attestation_participation_flag_indices :
      AttestationData → Slot → BeaconState → Outcome (List ℕ)
  get_attestation_participation_flag_indices d inclusion_delay state = do
    current_epoch ← get_current_epoch env state
    let justified_checkpoint =
        if d.target.epoch == current_epoch
        then state.current_justified_checkpoint
        else state.previous_justified_checkpoint
    fail_if (not (checkpoint_eq d.source justified_checkpoint)) (
        invalid_operation_error
          (attestation (invalid_source justified_checkpoint d.source current_epoch)))
    target_root ← get_block_root env d.target.epoch state
    let is_target = bytes_eq d.target.root target_root
    is_head ← is_matching_head is_target d state
    ok (earned_flags is_target is_head inclusion_delay)
