-- ===== src/BlockProcessing/Process.antt =====
-- ethereum-consensus/src/phase0/block_processing.rs: `process_operations` and `process_block`.
pub mod Shape
use ethereum_consensus.Prelude.{not, length, min, ◌==◌, wrapping_sub}
use ethereum_consensus.Types.{BeaconBlock, BeaconBlockBody}
use ethereum_consensus.Errors.{invalid_operation_error, deposit_operation, incorrect_count}
use ethereum_consensus.Action.{Action, gets, guard_not, for_each, ◌>>=◌, ◌>>◌}
use ethereum_consensus.Env.{Env}
use ethereum_consensus.BlockProcessing.Header.{process_block_header}
use ethereum_consensus.BlockProcessing.Randao.{process_randao, process_eth1_data}
use ethereum_consensus.BlockProcessing.Slashings.{
  process_proposer_slashing, process_attester_slashing,
}
use ethereum_consensus.BlockProcessing.Attestations.{process_attestation}
use ethereum_consensus.BlockProcessing.Deposits.{process_deposit}
use ethereum_consensus.BlockProcessing.Exits.{process_voluntary_exit}

module _ (env : Env) where
  open env use {context}

  unfoldable pub process_operations : BeaconBlockBody → Action (Unit {0})
  process_operations body = do
    pending ← gets (λ state. wrapping_sub state.eth1_data.deposit_count state.eth1_deposit_index)
    let expected = min context.max_deposits pending
    let count = length body.deposits
    guard_not (not (count == expected))
        (invalid_operation_error (deposit_operation (incorrect_count expected count)))
    for_each body.proposer_slashings (process_proposer_slashing env)
    for_each body.attester_slashings (process_attester_slashing env)
    for_each body.attestations (process_attestation env)
    for_each body.deposits (process_deposit env)
    for_each body.voluntary_exits (process_voluntary_exit env)

  unfoldable pub process_block : BeaconBlock → Action (Unit {0})
  process_block block = do
    process_block_header env block
    process_randao env block.body
    process_eth1_data env block.body
    process_operations block.body
