-- ===== src/Tests/AltairRun.antt =====
-- Opens every definition of altair at once, for the tests.
use ethereum_consensus.Altair.Attestations as Attestations
use ethereum_consensus.Altair.BlockProcessing as BlockProcessing
use ethereum_consensus.Altair.Deltas as Deltas
use ethereum_consensus.Altair.EpochProcessing as EpochProcessing
use ethereum_consensus.Altair.Flags as Flags
use ethereum_consensus.Altair.Participation as Participation
use ethereum_consensus.Altair.Shared as Shared
use ethereum_consensus.Altair.Slashing as Slashing
use ethereum_consensus.Altair.Spec as Spec
use ethereum_consensus.Altair.SyncAggregate as SyncAggregate
use ethereum_consensus.Altair.SyncCommittee as SyncCommittee
use ethereum_consensus.Altair.Transition as Transition
use ethereum_consensus.Altair.Upgrade as Upgrade

unfoldable pub altair_run : Unit {0}
unfolding Attestations.participation_of Attestations.with_participation Attestations.set_flag
    Attestations.reward_flag Attestations.reward_flags Attestations.reward_attesters
    Attestations.check_members Attestations.apply_attestation Attestations.process_attestation
    BlockProcessing.header_of BlockProcessing.push_validator BlockProcessing.process_block_header
    BlockProcessing.process_randao BlockProcessing.process_eth1_data
    BlockProcessing.process_proposer_slashing BlockProcessing.slash_all
    BlockProcessing.process_attester_slashing BlockProcessing.add_validator
    BlockProcessing.credit_or_add BlockProcessing.process_deposit
    BlockProcessing.process_voluntary_exit BlockProcessing.process_operations
    BlockProcessing.process_block Deltas.no_deltas Deltas.get_base_reward_per_increment
    Deltas.get_base_reward Deltas.flag_step Deltas.delta_loop Deltas.get_flag_index_deltas
    Deltas.inactivity_step Deltas.get_inactivity_penalty_deltas EpochProcessing.set_score
    EpochProcessing.rotate_participation EpochProcessing.process_participation_flag_updates
    EpochProcessing.rotate_committees EpochProcessing.weigh_justification_and_finalization
    EpochProcessing.process_justification_and_finalization EpochProcessing.updated_score
    EpochProcessing.update_score EpochProcessing.process_inactivity_updates
    EpochProcessing.deltas_from EpochProcessing.process_rewards_and_penalties
    EpochProcessing.process_registry_updates EpochProcessing.process_slashings
    EpochProcessing.process_eth1_data_reset EpochProcessing.process_effective_balance_updates
    EpochProcessing.process_slashings_reset EpochProcessing.process_randao_mixes_reset
    EpochProcessing.process_historical_roots_update EpochProcessing.process_sync_committee_updates
    EpochProcessing.process_epoch Flags.flag_bit Flags.add_flag Flags.has_flag
    Participation.participating Participation.get_unslashed_participating_indices
    Participation.is_matching_head Participation.earned_flags
    Participation.get_attestation_participation_flag_indices Shared.shared Shared.with_shared
    Shared.on_shared Shared.read_shared Shared.shared_body Slashing.pay_whistleblower
    Slashing.slash_part Slashing.slash_validator Spec.get_active_validator_indices
    Spec.increase_balance Spec.decrease_balance Spec.get_current_epoch Spec.get_previous_epoch
    Spec.get_block_root Spec.get_block_root_at_slot Spec.get_seed Spec.get_committee_count_per_slot
    Spec.get_beacon_committee Spec.get_beacon_proposer_index Spec.get_total_balance
    Spec.get_total_active_balance Spec.get_eligible_validator_indices Spec.get_domain
    Spec.get_attesting_indices Spec.get_indexed_attestation Spec.is_valid_indexed_attestation
    Spec.is_in_inactivity_leak SyncAggregate.participant_public_keys SyncAggregate.last_position_of
    SyncAggregate.committee_indices SyncAggregate.is_infinity
    SyncAggregate.eth_fast_aggregate_verify SyncAggregate.verify_sync_aggregate
    SyncAggregate.participant_reward SyncAggregate.proposer_reward SyncAggregate.reward_participant
    SyncAggregate.reward_participants SyncAggregate.process_sync_aggregate
    SyncCommittee.public_keys_at SyncCommittee.sync_committee_loop
    SyncCommittee.get_next_sync_committee_indices SyncCommittee.eth_aggregate_public_keys
    SyncCommittee.get_next_sync_committee Transition.process_slot Transition.advance_slot
    Transition.slots_loop Transition.process_slots Transition.verify_block_signature
    Transition.state_transition_block_in_slot Transition.state_transition Upgrade.set_previous_flags
    Upgrade.translate_flags Upgrade.translate_attesters Upgrade.with_sync_committees
    Upgrade.final_state Upgrade.translate_participation Upgrade.default_sync_committee
    Upgrade.initial_state Upgrade.complete_upgrade Upgrade.upgrade_to_altair
altair_run = tt
