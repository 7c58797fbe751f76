-- ===== src/Altair/Attestations.antt =====
-- ethereum-consensus/src/altair/block_processing.rs: `process_attestation`. The checks come first
-- and only read the state; then the flags are set and their weights added up, in the order of the
-- list that stands for the set of attesters.
pub mod Repeated
pub mod Shape
use ethereum_consensus.Prelude.{
  ℕ, suc, ◌-◌, ◌*◌, ◌/◌, Bool, not, ◌&&◌, ◌||◌, List, [], ◌∷◌, length, set, leb, ◌==◌,
  if◌then◌else◌, wrapping_add, wrapping_sub, wrapping_mul,
}
use ethereum_consensus.Prelude.Sets.{contains}
use ethereum_consensus.Types.{Epoch, ValidatorIndex, Attestation}
use ethereum_consensus.Types.Altair.{
  ParticipationFlags, BeaconState, participation_flag_weights, proposer_weight, weight_denominator,
}
use ethereum_consensus.Errors.{invalid_operation_error, attestation, bitfield, invalid_index}
use ethereum_consensus.Outcome.{index}
use ethereum_consensus.Action.{StateAction, read, gets, modify, pure, guard_not, ◌>>=◌, ◌>>◌}
use ethereum_consensus.Env.{Env}
use ethereum_consensus.BlockProcessing.Attestations.{check_timing}
use ethereum_consensus.Altair.Shared.{on_shared}
use ethereum_consensus.Altair.Spec.{
  get_current_epoch, get_previous_epoch, get_committee_count_per_slot, get_beacon_committee,
  get_beacon_proposer_index, get_indexed_attestation, is_valid_indexed_attestation,
  get_attesting_indices, increase_balance,
}
use ethereum_consensus.Altair.Flags.{add_flag, has_flag}
use ethereum_consensus.Altair.Participation.{get_attestation_participation_flag_indices}
use ethereum_consensus.Altair.Deltas.{get_base_reward}

-- The list of flags that the attestation writes to.
unfoldable pub participation_of : Bool → BeaconState → List ParticipationFlags
participation_of is_current state =
    if is_current then state.current_epoch_participation else state.previous_epoch_participation

unfoldable pub with_participation : Bool → List ParticipationFlags → BeaconState → BeaconState
with_participation is_current flags state =
    if is_current
    then record state { current_epoch_participation = flags }
    else record state { previous_epoch_participation = flags }

-- `participation[index] = add_flag(participation[index], flag_index)`
unfoldable pub set_flag : Bool → ValidatorIndex → ParticipationFlags → ℕ → BeaconState → BeaconState
set_flag is_current i old flag_index state =
    with_participation is_current
      (set (participation_of is_current state) i (add_flag old flag_index)) state

module _ (env : Env) where
  open env use {context}

  -- The body of the loop over the weights.
  unfoldable pub reward_flag :
      Bool → List ℕ → ValidatorIndex → (flag_index weight numerator : ℕ) → StateAction BeaconState ℕ
  reward_flag is_current flag_indices i flag_index weight numerator =
      if contains flag_index flag_indices
      then (do
        old ← read (λ state. index (participation_of is_current state) i)
        if has_flag old flag_index then pure numerator else do
          modify (set_flag is_current i old flag_index)
          base_reward ← read (get_base_reward env i)
          pure (wrapping_add numerator (wrapping_mul base_reward weight)))
      else pure numerator

  unfoldable pub reward_flags :
      Bool
      → List ℕ
      → ValidatorIndex
      → List ℕ
      → (flag_index numerator : ℕ) → StateAction BeaconState ℕ
  reward_flags is_current flag_indices i [] flag_index numerator = pure numerator
  reward_flags is_current flag_indices i (weight ∷ weights) flag_index numerator = do
    numerator' ← reward_flag is_current flag_indices i flag_index weight numerator
    reward_flags is_current flag_indices i weights (suc flag_index) numerator'

  unfoldable pub reward_attesters :
      Bool → List ℕ → List ValidatorIndex → ℕ → StateAction BeaconState ℕ
  reward_attesters is_current flag_indices [] numerator = pure numerator
  reward_attesters is_current flag_indices (i ∷ indices) numerator = do
    numerator' ← reward_flags is_current flag_indices i participation_flag_weights 0 numerator
    reward_attesters is_current flag_indices indices numerator'

  -- The checks on the committee.
  unfoldable pub check_members : Attestation → StateAction BeaconState (Unit {0})
  check_members a = do
    let d = a.attestation_data
    committee_count ← read (get_committee_count_per_slot env d.target.epoch)
    guard_not (leb committee_count d.index)
        (invalid_operation_error (attestation (invalid_index d.index committee_count)))
    committee ← read (get_beacon_committee env d.slot d.index)
    guard_not (not (length a.aggregation_bits == length committee)) (
        invalid_operation_error
          (attestation (bitfield (length committee) (length a.aggregation_bits))))

  -- The writes: the flags of the attesters, then the reward of the proposer.
  unfoldable pub apply_attestation :
      Bool → List ℕ → List ValidatorIndex → StateAction BeaconState (Unit {0})
  apply_attestation is_current flag_indices indices = do
    numerator ← reward_attesters is_current flag_indices indices 0
    let denominator = (weight_denominator - proposer_weight) * weight_denominator / proposer_weight
    proposer_index ← read (get_beacon_proposer_index env)
    increase_balance proposer_index (numerator / denominator)

  unfoldable pub process_attestation : Attestation → StateAction BeaconState (Unit {0})
  process_attestation a = do
    let d = a.attestation_data
    previous_epoch ← read (get_previous_epoch env)
    current_epoch ← read (get_current_epoch env)
    let is_current = d.target.epoch == current_epoch
    on_shared (check_timing env a current_epoch (d.target.epoch == previous_epoch || is_current))
    check_members a
    slot ← gets (λ state. state.slot)
    flag_indices ←
        read (get_attestation_participation_flag_indices env d (wrapping_sub slot d.slot))
    indexed ← read (get_indexed_attestation env a)
    read (is_valid_indexed_attestation env indexed)
    indices ← read (get_attesting_indices env d a.aggregation_bits)
    apply_attestation is_current flag_indices indices
