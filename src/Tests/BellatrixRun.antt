-- ===== src/Tests/BellatrixRun.antt =====
-- Opens every definition of bellatrix at once, for the tests.
use ethereum_consensus.Bellatrix.BlockProcessing as BlockProcessing
use ethereum_consensus.Bellatrix.EpochProcessing as EpochProcessing
use ethereum_consensus.Bellatrix.Helpers as Helpers
use ethereum_consensus.Bellatrix.Payload as Payload
use ethereum_consensus.Bellatrix.Shared as Shared
use ethereum_consensus.Bellatrix.Spec as Spec
use ethereum_consensus.Bellatrix.Transition as Transition
use ethereum_consensus.Bellatrix.Upgrade as Upgrade

unfoldable pub bellatrix_run : Unit {0}
unfolding BlockProcessing.header_of BlockProcessing.process_block_header
    BlockProcessing.process_randao BlockProcessing.process_eth1_data
    BlockProcessing.process_proposer_slashing BlockProcessing.process_attester_slashing
    BlockProcessing.process_attestation BlockProcessing.process_deposit
    BlockProcessing.process_voluntary_exit BlockProcessing.process_sync_aggregate
    BlockProcessing.process_operations BlockProcessing.process_block
    EpochProcessing.process_participation_flag_updates
    EpochProcessing.process_justification_and_finalization
    EpochProcessing.process_inactivity_updates EpochProcessing.process_rewards_and_penalties
    EpochProcessing.process_registry_updates EpochProcessing.process_slashings
    EpochProcessing.process_eth1_data_reset EpochProcessing.process_effective_balance_updates
    EpochProcessing.process_slashings_reset EpochProcessing.process_randao_mixes_reset
    EpochProcessing.process_historical_roots_update EpochProcessing.process_sync_committee_updates
    EpochProcessing.process_epoch Helpers.get_inactivity_penalty_deltas Helpers.slash_validator
    Payload.is_valid_block_hash Payload.notify_new_payload Payload.verify_and_notify_new_payload
    Payload.header_of_payload Payload.with_payload_header Payload.slots_since_genesis
    Payload.try_from Payload.default_payload Payload.default_payload_header
    Payload.is_merge_transition_complete Payload.is_merge_transition_block
    Payload.is_execution_enabled Payload.compute_timestamp_at_slot Payload.process_execution_payload
    Shared.bellatrix_env Shared.with_common Shared.on_common Shared.common_body
    Spec.get_current_epoch Spec.get_randao_mix Spec.get_beacon_proposer_index Spec.get_domain
    Transition.process_slot Transition.advance_slot Transition.slots_loop Transition.process_slots
    Transition.verify_block_signature Transition.state_transition_block_in_slot
    Transition.state_transition Upgrade.upgraded_state Upgrade.upgrade_to_bellatrix
bellatrix_run = tt
