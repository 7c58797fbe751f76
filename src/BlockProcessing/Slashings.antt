-- ===== src/BlockProcessing/Slashings.antt =====
-- ethereum-consensus/src/phase0/block_processing.rs: proposer slashings and attester slashings.
pub mod Accepted
pub mod Shape
use ethereum_consensus.Prelude.{
  Bool, true, false, not, none, some, List, [], ◌∷◌, get_elem?, ◌==◌, if◌then◌else◌,
}
use ethereum_consensus.Prelude.Sets.{from_iter, intersection}
use ethereum_consensus.Prelude.Sort.{sort}
use ethereum_consensus.Types.{
  Epoch, Domain, ValidatorIndex, Validator, SignedBeaconBlockHeader, ProposerSlashing,
  AttesterSlashing, header_eq, beacon_proposer,
}
use ethereum_consensus.Errors.{
  invalid_operation_error, proposer_slashing, slot_mismatch, proposer_mismatch, headers_are_equal,
  invalid_proposer_index, proposer_is_not_slashable, invalid_header_signature, attester_slashing,
  not_slashable, no_slashings,
}
use ethereum_consensus.Outcome.{index, ok_or}
use ethereum_consensus.Action.{Action, read, lift, pure, guard_not, ◌>>=◌, ◌>>◌}
use ethereum_consensus.Env.{Env, header_object}
use ethereum_consensus.Helpers.Predicates.{is_slashable_validator, is_slashable_attestation_data}
use ethereum_consensus.Helpers.Epochs.{compute_epoch_at_slot, get_current_epoch}
use ethereum_consensus.Helpers.Domains.{get_domain, compute_signing_root}
use ethereum_consensus.Helpers.Attestations.{is_valid_indexed_attestation}
use ethereum_consensus.Helpers.Exits.{slash_validator}
use ethereum_consensus.BlockProcessing.Randao.{is_err}

module _ (env : Env) where
  open env use {externals}

  -- The body of the loop over the two headers.
  unfoldable pub verify_header : Validator → Domain → SignedBeaconBlockHeader → Action (Unit {0})
  verify_header proposer domain signed_header = do
    signing_root ← lift (compute_signing_root env (header_object signed_header.message) domain)
    let signature = signed_header.signature
    bad ← lift (is_err (externals.verify_signature proposer.public_key signing_root signature))
    guard_not bad (invalid_operation_error (proposer_slashing (invalid_header_signature signature)))

  unfoldable pub process_proposer_slashing : ProposerSlashing → Action (Unit {0})
  process_proposer_slashing op = do
    let header_1 = op.signed_header_1.message
    let header_2 = op.signed_header_2.message
    guard_not (not (header_1.slot == header_2.slot))
        (invalid_operation_error (proposer_slashing (slot_mismatch header_1.slot header_2.slot)))
    let proposer_index = header_1.proposer_index
    guard_not (not (proposer_index == header_2.proposer_index)) (
        invalid_operation_error
          (proposer_slashing (proposer_mismatch proposer_index header_2.proposer_index)))
    guard_not (header_eq header_1 header_2)
        (invalid_operation_error (proposer_slashing (headers_are_equal header_1)))
    proposer ← read (λ state.
        ok_or (get_elem? state.validators proposer_index)
          (invalid_operation_error (proposer_slashing (invalid_proposer_index proposer_index))))
    current_epoch ← read (get_current_epoch env)
    guard_not (not (is_slashable_validator proposer current_epoch))
        (invalid_operation_error (proposer_slashing (proposer_is_not_slashable proposer_index)))
    epoch ← lift (compute_epoch_at_slot env header_1.slot)
    domain ← read (get_domain env beacon_proposer (some epoch))
    verify_header proposer domain op.signed_header_1
    verify_header proposer domain op.signed_header_2
    slash_validator env proposer_index none

  -- The loop over the indices, which says whether it slashed any.
  unfoldable pub slash_all : Epoch → List ValidatorIndex → Bool → Action Bool
  slash_all current_epoch [] slashed_any = pure slashed_any
  slash_all current_epoch (i ∷ indices) slashed_any = do
    v ← read (λ state. index state.validators i)
    let slashable = is_slashable_validator v current_epoch
    if slashable then slash_validator env i none else pure tt
    slash_all current_epoch indices (if slashable then true else slashed_any)

  unfoldable pub process_attester_slashing : AttesterSlashing → Action (Unit {0})
  process_attester_slashing op = do
    let data_1 = op.attestation_1.attestation_data
    let data_2 = op.attestation_2.attestation_data
    guard_not (not (is_slashable_attestation_data data_1 data_2))
        (invalid_operation_error (attester_slashing (not_slashable data_1 data_2)))
    read (is_valid_indexed_attestation env op.attestation_1)
    read (is_valid_indexed_attestation env op.attestation_2)
    let indices_1 = from_iter op.attestation_1.attesting_indices
    let indices_2 = from_iter op.attestation_2.attesting_indices
    let indices = sort (intersection indices_1 indices_2)
    current_epoch ← read (get_current_epoch env)
    slashed_any ← slash_all current_epoch indices false
    guard_not (not slashed_any) (invalid_operation_error (attester_slashing (no_slashings indices)))
