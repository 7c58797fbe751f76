-- ===== src/Altair/BlockProcessing.antt =====
-- ethereum-consensus/src/altair/block_processing.rs and spec/mod.rs: the header, the slashings, the
-- deposits, and the order of the steps.
pub mod Shape
use ethereum_consensus.Prelude.{
  ◌+◌, Bool, true, false, not, Option, none, some, List, [], ◌∷◌, ◌++◌, get_elem?, length, leb, min,
  ◌==◌, if◌then◌else◌, wrapping_sub,
}
use ethereum_consensus.Prelude.Bytes.{bytes_eq}
use ethereum_consensus.Prelude.Sets.{from_iter, intersection}
use ethereum_consensus.Prelude.Sort.{sort}
use ethereum_consensus.Types.{
  Root, Gwei, Epoch, ValidatorIndex, Validator, Deposit, SignedVoluntaryExit, ProposerSlashing,
  AttesterSlashing, BeaconBlockHeader, header_eq, beacon_proposer, deposit, default_root,
  deposit_contract_tree_depth,
}
use ethereum_consensus.Types.Altair.{BeaconState, BeaconBlock, BeaconBlockBody}
use ethereum_consensus.Errors.{
  invalid_header_error, state_slot_mismatch, older_than_latest_block_header,
  proposer_index_mismatch, parent_block_root_mismatch, proposer_slashed, invalid_operation_error,
  proposer_slashing, slot_mismatch, proposer_mismatch, headers_are_equal, invalid_proposer_index,
  proposer_is_not_slashable, attester_slashing, not_slashable, no_slashings, deposit_operation,
  invalid_proof, incorrect_count,
}
use ethereum_consensus.Outcome.{index, ok_or}
use ethereum_consensus.Action.{
  StateAction, read, gets, lift, modify, pure, guard_not, for_each, ◌>>=◌, ◌>>◌,
}
use ethereum_consensus.Env.{
  Env, header_object, altair_body_object, deposit_data_object, deposit_message_object,
}
use ethereum_consensus.Helpers.Predicates.{is_slashable_validator, is_slashable_attestation_data}
use ethereum_consensus.Helpers.Epochs.{compute_epoch_at_slot}
use ethereum_consensus.Helpers.Domains.{compute_domain, compute_signing_root}
use ethereum_consensus.BlockProcessing.Header.{with_header}
use ethereum_consensus.BlockProcessing.Randao as Randao
use ethereum_consensus.BlockProcessing.Randao.{is_err}
use ethereum_consensus.BlockProcessing.Slashings.{verify_header}
use ethereum_consensus.BlockProcessing.Deposits.{
  count_deposit, position_of, get_validator_from_deposit,
}
use ethereum_consensus.BlockProcessing.Exits as Exits
use ethereum_consensus.Altair.Shared.{on_shared, shared_body}
use ethereum_consensus.Altair.Spec.{
  get_current_epoch, get_beacon_proposer_index, get_domain, is_valid_indexed_attestation,
  increase_balance,
}
use ethereum_consensus.Altair.Slashing.{slash_validator}
use ethereum_consensus.Altair.Attestations.{process_attestation}
use ethereum_consensus.Altair.SyncAggregate.{process_sync_aggregate}

-- The header of a block whose state root is not known yet.
unfoldable pub header_of : BeaconBlock → Root → BeaconBlockHeader
header_of block body_root = record {
  slot = block.slot;
  proposer_index = block.proposer_index;
  parent_root = block.parent_root;
  state_root = default_root;
  body_root = body_root;
}

-- A new validator has no flags and no score.
unfoldable pub push_validator : Validator → Gwei → BeaconState → BeaconState
push_validator v amount state = record state {
  validators = state.validators ++ v ∷ [];
  balances = state.balances ++ amount ∷ [];
  previous_epoch_participation = state.previous_epoch_participation ++ 0 ∷ [];
  current_epoch_participation = state.current_epoch_participation ++ 0 ∷ [];
  inactivity_scores = state.inactivity_scores ++ 0 ∷ [];
}

module _ (env : Env) where
  open env use {context, externals}

  unfoldable pub process_block_header : BeaconBlock → StateAction BeaconState (Unit {0})
  process_block_header block = do
    slot ← gets (λ state. state.slot)
    guard_not (not (block.slot == slot))
        (invalid_header_error (state_slot_mismatch slot block.slot))
    latest ← gets (λ state. state.latest_block_header)
    guard_not (leb block.slot latest.slot)
        (invalid_header_error (older_than_latest_block_header block.slot latest.slot))
    proposer_index ← read (get_beacon_proposer_index env)
    guard_not (not (block.proposer_index == proposer_index))
        (invalid_header_error (proposer_index_mismatch block.proposer_index proposer_index))
    expected ← lift (externals.hash_tree_root (header_object latest))
    guard_not (not (bytes_eq block.parent_root expected))
        (invalid_header_error (parent_block_root_mismatch expected block.parent_root))
    body_root ← lift (externals.hash_tree_root (altair_body_object block.body))
    on_shared (modify (with_header (header_of block body_root)))
    proposer ← read (λ state. index state.validators block.proposer_index)
    guard_not proposer.slashed (invalid_header_error (proposer_slashed proposer_index))

  unfoldable pub process_randao : BeaconBlockBody → StateAction BeaconState (Unit {0})
  process_randao body = on_shared (Randao.process_randao env (shared_body body))

  unfoldable pub process_eth1_data : BeaconBlockBody → StateAction BeaconState (Unit {0})
  process_eth1_data body = on_shared (Randao.process_eth1_data env (shared_body body))

  unfoldable pub process_proposer_slashing : ProposerSlashing → StateAction BeaconState (Unit {0})
  process_proposer_slashing op = do
    let header_1 = op.signed_header_1.message
    let header_2 = op.signed_header_2.message
    guard_not (not (header_1.slot == header_2.slot))
        (invalid_operation_error (proposer_slashing (slot_mismatch header_1.slot header_2.slot)))
    let proposer_index = header_1.proposer_index
    guard_not (not (proposer_index == header_2.proposer_index)) (
        invalid_operation_error
          (proposer_slashing (proposer_mismatch proposer_index header_2.proposer_index)))
    guard_not (header_eq header_1 header_2)
        (invalid_operation_error (proposer_slashing (headers_are_equal header_1)))
    proposer ← read (λ state.
        ok_or (get_elem? state.validators proposer_index)
          (invalid_operation_error (proposer_slashing (invalid_proposer_index proposer_index))))
    current_epoch ← read (get_current_epoch env)
    guard_not (not (is_slashable_validator proposer current_epoch))
        (invalid_operation_error (proposer_slashing (proposer_is_not_slashable proposer_index)))
    epoch ← lift (compute_epoch_at_slot env header_1.slot)
    domain ← read (get_domain env beacon_proposer (some epoch))
    on_shared (verify_header env proposer domain op.signed_header_1)
    on_shared (verify_header env proposer domain op.signed_header_2)
    slash_validator env proposer_index none

  -- The loop over the indices, which says whether it slashed any.
  unfoldable pub slash_all : Epoch → List ValidatorIndex → Bool → StateAction BeaconState Bool
  slash_all current_epoch [] slashed_any = pure slashed_any
  slash_all current_epoch (i ∷ indices) slashed_any = do
    v ← read (λ state. index state.validators i)
    let slashable = is_slashable_validator v current_epoch
    if slashable then slash_validator env i none else pure tt
    slash_all current_epoch indices (if slashable then true else slashed_any)

  unfoldable pub process_attester_slashing : AttesterSlashing → StateAction BeaconState (Unit {0})
  process_attester_slashing op = do
    let data_1 = op.attestation_1.attestation_data
    let data_2 = op.attestation_2.attestation_data
    guard_not (not (is_slashable_attestation_data data_1 data_2))
        (invalid_operation_error (attester_slashing (not_slashable data_1 data_2)))
    read (is_valid_indexed_attestation env op.attestation_1)
    read (is_valid_indexed_attestation env op.attestation_2)
    let indices_1 = from_iter op.attestation_1.attesting_indices
    let indices_2 = from_iter op.attestation_2.attesting_indices
    let indices = sort (intersection indices_1 indices_2)
    current_epoch ← read (get_current_epoch env)
    slashed_any ← slash_all current_epoch indices false
    guard_not (not slashed_any) (invalid_operation_error (attester_slashing (no_slashings indices)))

  -- A deposit with a new key: one with a bad signature is skipped without an error.
  unfoldable pub add_validator : Deposit → StateAction BeaconState (Unit {0})
  add_validator d = do
    let key = d.deposit_data.public_key
    let amount = d.deposit_data.amount
    let message = deposit_message_object (record {
      public_key = key;
      withdrawal_credentials = d.deposit_data.withdrawal_credentials;
      amount = amount;
    })
    domain ← lift (compute_domain env deposit none none)
    signing_root ← lift (compute_signing_root env message domain)
    bad ← lift (is_err (externals.verify_signature key signing_root d.deposit_data.signature))
    if bad
        then pure tt
        else do v ← lift (get_validator_from_deposit env d); modify (push_validator v amount)

  -- The code looks the key up in a set, and then finds its first place in the registry.
  unfoldable pub credit_or_add :
      Deposit → Option ValidatorIndex → StateAction BeaconState (Unit {0})
  credit_or_add d none = add_validator d
  credit_or_add d (some i) = increase_balance i d.deposit_data.amount

  unfoldable pub process_deposit : Deposit → StateAction BeaconState (Unit {0})
  process_deposit d = do
    leaf ← lift (externals.hash_tree_root (deposit_data_object d.deposit_data))
    let depth = deposit_contract_tree_depth + 1
    i ← gets (λ state. state.eth1_deposit_index)
    root ← gets (λ state. state.eth1_data.deposit_root)
    guard_not (not (externals.is_valid_merkle_branch leaf d.proof depth i root))
        (invalid_operation_error (deposit_operation (invalid_proof leaf d.proof depth i root)))
    on_shared (modify count_deposit)
    known ← gets (λ state. position_of d.deposit_data.public_key 0 state.validators)
    credit_or_add d known

  unfoldable pub process_voluntary_exit : SignedVoluntaryExit → StateAction BeaconState (Unit {0})
  process_voluntary_exit op = on_shared (Exits.process_voluntary_exit env op)

  unfoldable pub process_operations : BeaconBlockBody → StateAction BeaconState (Unit {0})
  process_operations body = do
    pending ← gets (λ state. wrapping_sub state.eth1_data.deposit_count state.eth1_deposit_index)
    let expected = min context.max_deposits pending
    let count = length body.deposits
    guard_not (not (count == expected))
        (invalid_operation_error (deposit_operation (incorrect_count expected count)))
    for_each body.proposer_slashings process_proposer_slashing
    for_each body.attester_slashings process_attester_slashing
    for_each body.attestations (process_attestation env)
    for_each body.deposits process_deposit
    for_each body.voluntary_exits process_voluntary_exit

  unfoldable pub process_block : BeaconBlock → StateAction BeaconState (Unit {0})
  process_block block = do
    process_block_header block
    process_randao block.body
    process_eth1_data block.body
    process_operations block.body
    process_sync_aggregate env block.body.sync_aggregate
