-- ===== src/BlockProcessing/Attestations.antt =====
-- ethereum-consensus/src/phase0/block_processing.rs: `process_attestation`, as its checks, which
-- only read the state, and the push onto the list of the epoch.
pub mod Accepted
pub mod Shape
use ethereum_consensus.Prelude.{
  Bool, not, ◌&&◌, ◌||◌, [], ◌∷◌, ◌++◌, length, leb, ◌==◌, if◌then◌else◌, wrapping_add,
  wrapping_sub,
}
use ethereum_consensus.Types.{
  Epoch, Checkpoint, Attestation, PendingAttestation, BeaconState, checkpoint_eq,
}
use ethereum_consensus.Errors.{
  invalid_operation_error, attestation, bitfield, invalid_target_epoch, invalid_slot, not_timely,
  invalid_index, invalid_source,
}
use ethereum_consensus.Action.{Action, read, gets, lift, modify, guard_not, ◌>>=◌, ◌>>◌}
use ethereum_consensus.Env.{Env}
use ethereum_consensus.Helpers.Epochs.{compute_epoch_at_slot, get_current_epoch, get_previous_epoch}
use ethereum_consensus.Helpers.Accessors.{get_committee_count_per_slot}
use ethereum_consensus.Helpers.Committees.{get_beacon_committee, get_beacon_proposer_index}
use ethereum_consensus.Helpers.Attestations.{get_indexed_attestation, is_valid_indexed_attestation}

unfoldable pub push_current : PendingAttestation → BeaconState → BeaconState
push_current pending state = record state {
  current_epoch_attestations = state.current_epoch_attestations ++ pending ∷ [];
}

unfoldable pub push_previous : PendingAttestation → BeaconState → BeaconState
push_previous pending state = record state {
  previous_epoch_attestations = state.previous_epoch_attestations ++ pending ∷ [];
}

-- One branch of the last `if`: the source must be the justified checkpoint of the epoch.
unfoldable pub push_if_source :
    Checkpoint → Checkpoint → Epoch → (BeaconState → BeaconState) → Action (Unit {0})
push_if_source expected source current_epoch push = do
  guard_not (not (checkpoint_eq source expected))
      (invalid_operation_error (attestation (invalid_source expected source current_epoch)))
  modify push

module _ (env : Env) where
  open env use {context}

  -- The first three checks, on the epochs and the slots.
  unfoldable pub check_timing : Attestation → Epoch → Bool → Action (Unit {0})
  check_timing a current_epoch valid_target_epoch = do
    let d = a.attestation_data
    let target = d.target.epoch
    guard_not (not valid_target_epoch)
        (invalid_operation_error (attestation (invalid_target_epoch target current_epoch)))
    attestation_epoch ← lift (compute_epoch_at_slot env d.slot)
    guard_not (not (target == attestation_epoch))
        (invalid_operation_error (attestation (invalid_slot d.slot attestation_epoch target)))
    slot ← gets (λ state. state.slot)
    let earliest = wrapping_add d.slot context.min_attestation_inclusion_delay
    let latest = wrapping_add d.slot context.slots_per_epoch
    guard_not (not (leb earliest slot && leb slot latest))
        (invalid_operation_error (attestation (not_timely slot d.slot latest earliest)))

  -- The checks on the committee and on the indexed attestation.
  unfoldable pub check_committee : Attestation → Action (Unit {0})
  check_committee a = do
    let d = a.attestation_data
    committee_count ← read (get_committee_count_per_slot env d.target.epoch)
    guard_not (leb committee_count d.index)
        (invalid_operation_error (attestation (invalid_index d.index committee_count)))
    committee ← read (get_beacon_committee env d.slot d.index)
    guard_not (not (length a.aggregation_bits == length committee)) (
        invalid_operation_error
          (attestation (bitfield (length committee) (length a.aggregation_bits))))
    indexed ← read (get_indexed_attestation env a)
    read (is_valid_indexed_attestation env indexed)

  unfoldable pub process_attestation : Attestation → Action (Unit {0})
  process_attestation a = do
    let d = a.attestation_data
    previous_epoch ← read (get_previous_epoch env)
    current_epoch ← read (get_current_epoch env)
    let is_current = d.target.epoch == current_epoch
    check_timing a current_epoch (d.target.epoch == previous_epoch || is_current)
    check_committee a
    slot ← gets (λ state. state.slot)
    proposer_index ← read (get_beacon_proposer_index env)
    let pending : PendingAttestation = record {
      aggregation_bits = a.aggregation_bits;
      attestation_data = d;
      inclusion_delay = wrapping_sub slot d.slot;
      proposer_index = proposer_index;
    }
    current_justified ← gets (λ state. state.current_justified_checkpoint)
    previous_justified ← gets (λ state. state.previous_justified_checkpoint)
    if is_current
        then push_if_source current_justified d.source current_epoch (push_current pending)
        else push_if_source previous_justified d.source current_epoch (push_previous pending)
