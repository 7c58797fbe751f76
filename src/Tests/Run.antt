-- ===== src/Tests/Run.antt =====
-- Opens every definition of the model at once, so that the tests can compute with them.
use ethereum_consensus.Action.{pure, read, gets, lift, modify, ◌>>=◌, for_each, for_range}
use ethereum_consensus.BlockProcessing.Attestations.{
  push_current, push_previous, push_if_source, check_timing, check_committee, process_attestation,
}
use ethereum_consensus.BlockProcessing.Deposits.{
  count_deposit, push_validator, position_of, get_validator_from_deposit, add_validator,
  credit_or_add, process_deposit,
}
use ethereum_consensus.BlockProcessing.Exits.{map_err, process_voluntary_exit}
use ethereum_consensus.BlockProcessing.Header.{header_of, with_header, process_block_header}
use ethereum_consensus.BlockProcessing.Process.{process_operations, process_block}
use ethereum_consensus.BlockProcessing.Randao.{
  is_err, push_vote, with_eth1_data, process_randao, process_eth1_data,
}
use ethereum_consensus.BlockProcessing.Slashings.{
  verify_header, process_proposer_slashing, slash_all, process_attester_slashing,
}
use ethereum_consensus.Clock.{
  slot_to_nanos, u128_to_u64, convert_timestamp_to_slot, convert_timestamp_nanos_to_slot, new_clock,
  expect_slot, before_genesis_at, slot_at_time, epoch_for, epoch_of, current_epoch,
  duration_until_slot, duration_until_next_slot,
}
use ethereum_consensus.EpochProcessing.Justification.{
  shift_bits, begin_justification, justify_previous, justify_current, finalize, with_finalized,
  justify_epoch, weigh_justification_and_finalization, process_justification_and_finalization,
}
use ethereum_consensus.EpochProcessing.Justification.Weighing.{justified, finalize_in}
use ethereum_consensus.EpochProcessing.Matching.{
  insert_unslashed, get_matching_source_attestations, get_matching_target_attestations, filter_head,
  get_matching_head_attestations, unslashed_from, get_unslashed_attesting_indices,
  get_attesting_balance,
}
use ethereum_consensus.EpochProcessing.Penalties.{
  apply_deltas, with_effective_balance, wrapping_sum, process_rewards_and_penalties,
  slashing_penalty, penalize, process_slashings, leaves_band, rounded_balance,
  update_effective_balance, process_effective_balance_updates,
}
use ethereum_consensus.EpochProcessing.Process.{process_epoch}
use ethereum_consensus.EpochProcessing.Registry.{
  entry_le, entries_of, activation_queue, activate_at, queue_at, update_eligibility,
  process_registry_updates,
}
use ethereum_consensus.EpochProcessing.Resets.{
  clear_votes, write_mix, clear_slashing, push_historical_root,
  process_participation_record_updates, process_eth1_data_reset, process_slashings_reset,
  process_randao_mixes_reset, process_historical_roots_update,
}
use ethereum_consensus.EpochProcessing.Rewards.{
  add_at, least_delay, min_by_delay, add_four, get_base_reward, get_proposer_reward,
  get_finality_delay, is_in_inactivity_leak, attester_reward, component_step, component_loop,
  get_attestation_component_deltas, get_source_deltas, get_target_deltas, get_head_deltas,
  attestations_of, inclusion_step, inclusion_loop, get_inclusion_delay_deltas, add_leak_penalty,
  inactivity_loop, get_inactivity_penalty_deltas, get_attestation_deltas,
}
use ethereum_consensus.Forks.{fork_at, fork_for, fork_version_for}
use ethereum_consensus.Genesis.{
  with_deposit_root, with_genesis_validators_root, final_state, get_genesis_block, initial_state,
  process_deposits, activate_genesis, activate_validator, complete_genesis,
  initialize_beacon_state_from_eth1, is_valid_genesis_state,
}
use ethereum_consensus.Helpers.Accessors.{
  get_active_validator_indices, get_block_root_at_slot, get_block_root, get_randao_mix,
  get_validator_churn_limit, get_seed, get_committee_count_per_slot,
}
use ethereum_consensus.Helpers.Attestations.{
  members_with_bit, scan_indices, check_indices, public_keys_of, get_attesting_indices,
  get_indexed_attestation, is_valid_indexed_attestation,
}
use ethereum_consensus.Helpers.Balances.{
  with_balances, set_balance, increase_balance, decrease_balance, checked_add, total_from,
  get_total_balance, get_total_active_balance, is_eligible_validator,
  get_eligible_validator_indices,
}
use ethereum_consensus.Helpers.Committees.{
  committee_members, compute_committee, get_beacon_committee, candidate_at, is_accepted,
  proposer_loop, compute_proposer_index, get_beacon_proposer_index,
}
use ethereum_consensus.Helpers.Domains.{
  compute_fork_data_root, compute_fork_digest, compute_domain, epoch_or_current, get_domain,
  compute_signing_root, verify_signed_data, verify_block_signature,
}
use ethereum_consensus.Helpers.Epochs.{
  compute_epoch_at_slot, compute_start_slot_at_epoch, compute_activation_exit_epoch,
  get_current_epoch, get_previous_epoch,
}
use ethereum_consensus.Helpers.Exits.{
  with_validators, with_slashings, set_validator, update_validator, max_epoch, latest_exit_epoch,
  exit_count, exit_at, slash_at, queue_exit, initiate_validator_exit, add_slashing,
  pay_whistleblower, slash_validator,
}
use ethereum_consensus.Helpers.Predicates.{
  is_active_validator, is_eligible_for_activation_queue, is_eligible_for_activation,
  is_slashable_validator, is_slashable_attestation_data,
}
use ethereum_consensus.Helpers.Shuffling.{
  compute_pivot, decision_bit, flip_of, shuffle_round, shuffle_rounds, compute_shuffled_index,
}
use ethereum_consensus.Prelude.{indices_where}
use ethereum_consensus.Prelude.Bytes.{bytes_eq, to_le_bytes, from_le_bytes, xor_bytes}
use ethereum_consensus.Prelude.Sets.{contains, insert, insert_all, from_iter, intersection}
use ethereum_consensus.Prelude.Sort.{insert_by, sort_by, sort}
use ethereum_consensus.Transition.{
  write_state_root, write_block_root, fill_state_root, with_slot, process_slot, advance_slot,
  slots_loop, process_slots, state_transition_block_in_slot, state_transition,
}
use ethereum_consensus.Types.{checkpoint_eq, attestation_data_eq, eth1_data_eq, header_eq, as_bytes}
use ethereum_consensus.Types.Bellatrix.{payload_header_eq, payload_eq}

unfoldable pub run : Unit {0}
unfolding pure read gets lift modify ◌>>=◌ for_each for_range push_current push_previous
    push_if_source check_timing check_committee process_attestation count_deposit push_validator
    position_of get_validator_from_deposit add_validator credit_or_add process_deposit map_err
    process_voluntary_exit header_of with_header process_block_header process_operations
    process_block is_err push_vote with_eth1_data process_randao process_eth1_data verify_header
    process_proposer_slashing slash_all process_attester_slashing slot_to_nanos u128_to_u64
    convert_timestamp_to_slot convert_timestamp_nanos_to_slot new_clock expect_slot
    before_genesis_at slot_at_time epoch_for epoch_of current_epoch duration_until_slot
    duration_until_next_slot shift_bits begin_justification justify_previous justify_current
    finalize with_finalized justify_epoch weigh_justification_and_finalization
    process_justification_and_finalization justified finalize_in insert_unslashed
    get_matching_source_attestations get_matching_target_attestations filter_head
    get_matching_head_attestations unslashed_from get_unslashed_attesting_indices
    get_attesting_balance apply_deltas with_effective_balance wrapping_sum
    process_rewards_and_penalties slashing_penalty penalize process_slashings leaves_band
    rounded_balance update_effective_balance process_effective_balance_updates process_epoch
    entry_le entries_of activation_queue activate_at queue_at update_eligibility
    process_registry_updates clear_votes write_mix clear_slashing push_historical_root
    process_participation_record_updates process_eth1_data_reset process_slashings_reset
    process_randao_mixes_reset process_historical_roots_update add_at least_delay min_by_delay
    add_four get_base_reward get_proposer_reward get_finality_delay is_in_inactivity_leak
    attester_reward component_step component_loop get_attestation_component_deltas get_source_deltas
    get_target_deltas get_head_deltas attestations_of inclusion_step inclusion_loop
    get_inclusion_delay_deltas add_leak_penalty inactivity_loop get_inactivity_penalty_deltas
    get_attestation_deltas fork_at fork_for fork_version_for with_deposit_root
    with_genesis_validators_root final_state get_genesis_block initial_state process_deposits
    activate_genesis activate_validator complete_genesis initialize_beacon_state_from_eth1
    is_valid_genesis_state get_active_validator_indices get_block_root_at_slot get_block_root
    get_randao_mix get_validator_churn_limit get_seed get_committee_count_per_slot members_with_bit
    scan_indices check_indices public_keys_of get_attesting_indices get_indexed_attestation
    is_valid_indexed_attestation with_balances set_balance increase_balance decrease_balance
    checked_add total_from get_total_balance get_total_active_balance is_eligible_validator
    get_eligible_validator_indices committee_members compute_committee get_beacon_committee
    candidate_at is_accepted proposer_loop compute_proposer_index get_beacon_proposer_index
    compute_fork_data_root compute_fork_digest compute_domain epoch_or_current get_domain
    compute_signing_root verify_signed_data verify_block_signature compute_epoch_at_slot
    compute_start_slot_at_epoch compute_activation_exit_epoch get_current_epoch get_previous_epoch
    with_validators with_slashings set_validator update_validator max_epoch latest_exit_epoch
    exit_count exit_at slash_at queue_exit initiate_validator_exit add_slashing pay_whistleblower
    slash_validator is_active_validator is_eligible_for_activation_queue is_eligible_for_activation
    is_slashable_validator is_slashable_attestation_data compute_pivot decision_bit flip_of
    shuffle_round shuffle_rounds compute_shuffled_index indices_where bytes_eq to_le_bytes
    from_le_bytes xor_bytes contains insert insert_all from_iter intersection insert_by sort_by sort
    write_state_root write_block_root fill_state_root with_slot process_slot advance_slot slots_loop
    process_slots state_transition_block_in_slot state_transition checkpoint_eq attestation_data_eq
    eth1_data_eq header_eq as_bytes payload_header_eq payload_eq
run = tt
