-- ===== src/Bellatrix/BlockProcessing.antt =====
-- ethereum-consensus/src/bellatrix/block_processing.rs and the operations in bellatrix/spec/mod.rs.
pub mod Shape
use ethereum_consensus.Prelude.{not, leb, min, length, ◌==◌, if◌then◌else◌, wrapping_sub}
use ethereum_consensus.Prelude.Bytes.{bytes_eq}
use ethereum_consensus.Types.{
  Root, Deposit, SignedVoluntaryExit, ProposerSlashing, AttesterSlashing, Attestation,
  BeaconBlockHeader, default_root,
}
use ethereum_consensus.Types.Altair.{SyncAggregate}
use ethereum_consensus.Types.Bellatrix.{BeaconState, BeaconBlock, BeaconBlockBody}
use ethereum_consensus.Errors.{
  invalid_header_error, state_slot_mismatch, older_than_latest_block_header,
  proposer_index_mismatch, parent_block_root_mismatch, proposer_slashed, invalid_operation_error,
  deposit_operation, incorrect_count,
}
use ethereum_consensus.Outcome.{index}
use ethereum_consensus.Action.{
  StateAction, read, gets, lift, modify, pure, guard_not, for_each, ◌>>=◌, ◌>>◌,
}
use ethereum_consensus.Env.{Env, header_object, bellatrix_body_object}
use ethereum_consensus.BlockProcessing.Header.{with_header}
use ethereum_consensus.Altair.Shared.{on_shared}
use ethereum_consensus.Altair.Attestations as Attestations
use ethereum_consensus.Altair.SyncAggregate as SyncAggregate
use ethereum_consensus.Altair.BlockProcessing as Altair
use ethereum_consensus.Bellatrix.Shared.{bellatrix_env, on_common, common_body}
use ethereum_consensus.Bellatrix.Spec.{get_beacon_proposer_index}
use ethereum_consensus.Bellatrix.Payload.{
  ExecutionEngine, is_execution_enabled, process_execution_payload,
}

-- The header of a block whose state root is not known yet.
unfoldable pub header_of : BeaconBlock → Root → BeaconBlockHeader
header_of block body_root = record {
  slot = block.slot;
  proposer_index = block.proposer_index;
  parent_root = block.parent_root;
  state_root = default_root;
  body_root = body_root;
}

module _ (env : Env) where
  open env use {context, externals}

  unfoldable pub process_block_header : BeaconBlock → StateAction BeaconState (Unit {0})
  process_block_header block = do
    slot ← gets (λ state. state.common.slot)
    guard_not (not (block.slot == slot))
        (invalid_header_error (state_slot_mismatch slot block.slot))
    latest ← gets (λ state. state.common.latest_block_header)
    guard_not (leb block.slot latest.slot)
        (invalid_header_error (older_than_latest_block_header block.slot latest.slot))
    proposer_index ← read (get_beacon_proposer_index env)
    guard_not (not (block.proposer_index == proposer_index))
        (invalid_header_error (proposer_index_mismatch block.proposer_index proposer_index))
    expected ← lift (externals.hash_tree_root (header_object latest))
    guard_not (not (bytes_eq block.parent_root expected))
        (invalid_header_error (parent_block_root_mismatch expected block.parent_root))
    body_root ← lift (externals.hash_tree_root (bellatrix_body_object block.body))
    on_common (on_shared (modify (with_header (header_of block body_root))))
    proposer ← read (λ state. index state.common.validators block.proposer_index)
    guard_not proposer.slashed (invalid_header_error (proposer_slashed proposer_index))

  unfoldable pub process_randao : BeaconBlockBody → StateAction BeaconState (Unit {0})
  process_randao body = on_common (Altair.process_randao (bellatrix_env env) (common_body body))

  unfoldable pub process_eth1_data : BeaconBlockBody → StateAction BeaconState (Unit {0})
  process_eth1_data body =
      on_common (Altair.process_eth1_data (bellatrix_env env) (common_body body))

  unfoldable pub process_proposer_slashing : ProposerSlashing → StateAction BeaconState (Unit {0})
  process_proposer_slashing op = on_common (Altair.process_proposer_slashing (bellatrix_env env) op)

  unfoldable pub process_attester_slashing : AttesterSlashing → StateAction BeaconState (Unit {0})
  process_attester_slashing op = on_common (Altair.process_attester_slashing (bellatrix_env env) op)

  unfoldable pub process_attestation : Attestation → StateAction BeaconState (Unit {0})
  process_attestation op = on_common (Attestations.process_attestation (bellatrix_env env) op)

  unfoldable pub process_deposit : Deposit → StateAction BeaconState (Unit {0})
  process_deposit d = on_common (Altair.process_deposit (bellatrix_env env) d)

  unfoldable pub process_voluntary_exit : SignedVoluntaryExit → StateAction BeaconState (Unit {0})
  process_voluntary_exit op = on_common (Altair.process_voluntary_exit (bellatrix_env env) op)

  unfoldable pub process_sync_aggregate : SyncAggregate → StateAction BeaconState (Unit {0})
  process_sync_aggregate aggregate =
      on_common (SyncAggregate.process_sync_aggregate (bellatrix_env env) aggregate)

  unfoldable pub process_operations : BeaconBlockBody → StateAction BeaconState (Unit {0})
  process_operations body = do
    pending ←
        gets (λ state.
          wrapping_sub state.common.eth1_data.deposit_count state.common.eth1_deposit_index)
    let expected = min context.max_deposits pending
    let count = length body.deposits
    guard_not (not (count == expected))
        (invalid_operation_error (deposit_operation (incorrect_count expected count)))
    for_each body.proposer_slashings process_proposer_slashing
    for_each body.attester_slashings process_attester_slashing
    for_each body.attestations process_attestation
    for_each body.deposits process_deposit
    for_each body.voluntary_exits process_voluntary_exit

  unfoldable pub process_block : BeaconBlock → ExecutionEngine → StateAction BeaconState (Unit {0})
  process_block block engine = do
    process_block_header block
    enabled ← gets (λ state. is_execution_enabled env state block.body)
    if enabled then process_execution_payload env block.body.execution_payload engine else pure tt
    process_randao block.body
    process_eth1_data block.body
    process_operations block.body
    process_sync_aggregate block.body.sync_aggregate
