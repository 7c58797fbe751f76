-- ===== src/Errors.antt =====
-- ethereum-consensus/src/error.rs: the errors that the modelled code returns. The payloads of the
-- Merkleization and the BLS errors belong to other crates and are left out.
use ethereum_consensus.Prelude.{ℕ, List}
use ethereum_consensus.Prelude.Bytes.{Bytes}
use ethereum_consensus.Types.{
  Root, Slot, Epoch, ValidatorIndex, BlsSignature, Checkpoint, AttestationData, BeaconBlockHeader,
}

pub data InvalidBeaconBlockHeader : Type 0 where
  state_slot_mismatch : (state_slot block_slot : Slot) → InvalidBeaconBlockHeader
  parent_block_root_mismatch : (expected provided : Root) → InvalidBeaconBlockHeader
  proposer_slashed : ValidatorIndex → InvalidBeaconBlockHeader
  older_than_latest_block_header :
      (block_slot latest_block_header_slot : Slot) → InvalidBeaconBlockHeader
  proposer_index_mismatch :
      (block_proposer_index proposer_index : ValidatorIndex) → InvalidBeaconBlockHeader

pub data InvalidAttestation : Type 0 where
  bitfield : (expected_length length : ℕ) → InvalidAttestation
  invalid_target_epoch : (target current : Epoch) → InvalidAttestation
  invalid_slot : (slot : Slot) (epoch target : Epoch) → InvalidAttestation
  not_timely : (state_slot attestation_slot lower_bound upper_bound : Slot) → InvalidAttestation
  invalid_index : (index upper_bound : ℕ) → InvalidAttestation
  invalid_source : (expected source_checkpoint : Checkpoint) (current : Epoch) → InvalidAttestation

pub data InvalidIndexedAttestation : Type 0 where
  attesting_indices_empty : InvalidIndexedAttestation
  duplicate_indices : List ValidatorIndex → InvalidIndexedAttestation
  attesting_indices_not_sorted : InvalidIndexedAttestation
  invalid_validator_index : ValidatorIndex → InvalidIndexedAttestation

pub data InvalidDeposit : Type 0 where
  incorrect_count : (expected count : ℕ) → InvalidDeposit
  invalid_proof :
      (leaf : Root) (branch : List Root) (depth index : ℕ) (root : Root) → InvalidDeposit

pub data InvalidProposerSlashing : Type 0 where
  slot_mismatch : (slot_1 slot_2 : Slot) → InvalidProposerSlashing
  proposer_mismatch : (index_1 index_2 : ValidatorIndex) → InvalidProposerSlashing
  headers_are_equal : BeaconBlockHeader → InvalidProposerSlashing
  proposer_is_not_slashable : ValidatorIndex → InvalidProposerSlashing
  invalid_header_signature : BlsSignature → InvalidProposerSlashing
  invalid_proposer_index : ValidatorIndex → InvalidProposerSlashing

pub data InvalidAttesterSlashing : Type 0 where
  not_slashable : (data_1 data_2 : AttestationData) → InvalidAttesterSlashing
  no_slashings : List ValidatorIndex → InvalidAttesterSlashing

pub data InvalidVoluntaryExit : Type 0 where
  invalid_exit_index : ValidatorIndex → InvalidVoluntaryExit
  inactive_validator : Epoch → InvalidVoluntaryExit
  validator_already_exited : (index : ValidatorIndex) (epoch : Epoch) → InvalidVoluntaryExit
  early_exit : (current_epoch exit_epoch : Epoch) → InvalidVoluntaryExit
  validator_is_not_active_for_long_enough :
      (current_epoch minimum_time_active : Epoch) → InvalidVoluntaryExit
  invalid_exit_signature : BlsSignature → InvalidVoluntaryExit

pub data InvalidSyncAggregate : Type 0 where
  invalid_sync_signature : (signature : BlsSignature) (root : Root) → InvalidSyncAggregate

pub data InvalidExecutionPayload : Type 0 where
  invalid_parent_hash : (provided expected : Bytes) → InvalidExecutionPayload
  invalid_prev_randao : (provided expected : Bytes) → InvalidExecutionPayload
  invalid_timestamp : (provided expected : ℕ) → InvalidExecutionPayload

pub data ExecutionEngineError : Type 0 where
  invalid_block_hash invalid_payload : ExecutionEngineError

pub data InvalidOperation : Type 0 where
  attestation : InvalidAttestation → InvalidOperation
  indexed_attestation : InvalidIndexedAttestation → InvalidOperation
  deposit_operation : InvalidDeposit → InvalidOperation
  randao_reveal : BlsSignature → InvalidOperation
  proposer_slashing : InvalidProposerSlashing → InvalidOperation
  attester_slashing : InvalidAttesterSlashing → InvalidOperation
  voluntary_exit_operation : InvalidVoluntaryExit → InvalidOperation
  sync_aggregate_operation : InvalidSyncAggregate → InvalidOperation
  execution_payload_operation : InvalidExecutionPayload → InvalidOperation

pub data InvalidBlock : Type 0 where
  header : InvalidBeaconBlockHeader → InvalidBlock
  invalid_operation : InvalidOperation → InvalidBlock

pub data Error : Type 0 where
  merkleization : Error
  simple_serialize : Error
  crypto : Error
  out_of_bounds : (requested bound : ℕ) → Error
  collection_cannot_be_empty : Error
  invalid_shuffling_index : (index total : ℕ) → Error
  slot_out_of_range : (requested lower_bound upper_bound : Slot) → Error
  overflow : Error
  underflow : Error
  execution_engine : ExecutionEngineError → Error
  invalid_block : InvalidBlock → Error
  transition_to_previous_slot : (current requested : Slot) → Error
  invalid_state_root : Error
  invalid_epoch : (requested previous current : Epoch) → Error

abbrev pub invalid_header_error : InvalidBeaconBlockHeader → Error
invalid_header_error e = invalid_block (header e)

abbrev pub invalid_operation_error : InvalidOperation → Error
invalid_operation_error e = invalid_block (invalid_operation e)
