-- ===== src/Bellatrix/BlockProcessing/Shape.antt =====
-- The steps of a block leave the lists of a bellatrix state in step.
use ethereum_consensus.Types.Bellatrix.{BeaconBlock, BeaconBlockBody, ExecutionPayload}
use ethereum_consensus.Action.Keeps.{Keeps, Keeps-modify, keeps_rules}
use ethereum_consensus.Env.{Env}
use ethereum_consensus.Shape.{Shape}
use ethereum_consensus.Altair.BlockProcessing.Shape.{
  with_header-IsConsistent, process_randao-IsConsistent, process_eth1_data-IsConsistent,
  process_proposer_slashing-IsConsistent, process_attester_slashing-IsConsistent,
  process_deposit-IsConsistent, process_voluntary_exit-IsConsistent,
}
use ethereum_consensus.Altair.Attestations.Shape.{process_attestation-IsConsistent}
use ethereum_consensus.Altair.SyncAggregate.Shape.{process_sync_aggregate-IsConsistent}
use ethereum_consensus.Bellatrix.InStep.{IsInStep, on_common-IsInStep}
use ethereum_consensus.Bellatrix.Payload.{
  ExecutionEngine, with_payload_header, process_execution_payload,
}
use ethereum_consensus.Bellatrix.BlockProcessing as Block

module _ (env : Env) {k : Shape} where
  process_execution_payload-IsInStep :
      (payload : ExecutionPayload) (engine : ExecutionEngine)
      → Keeps (IsInStep k) (process_execution_payload env payload engine)
  unfolding process_execution_payload with_payload_header
  process_execution_payload-IsInStep payload engine = search (keeps_rules, Keeps-modify) depth 18

  process_operations-IsInStep :
      (body : BeaconBlockBody) → Keeps (IsInStep k) (Block.process_operations env body)
  unfolding Block.process_operations Block.process_proposer_slashing Block.process_attester_slashing
      Block.process_attestation Block.process_deposit Block.process_voluntary_exit
  process_operations-IsInStep body =
      search
        (
          keeps_rules, on_common-IsInStep, process_proposer_slashing-IsConsistent,
          process_attester_slashing-IsConsistent, process_attestation-IsConsistent,
          process_deposit-IsConsistent, process_voluntary_exit-IsConsistent,
        )
        depth 16

  process_block_header-IsInStep :
      (block : BeaconBlock) → Keeps (IsInStep k) (Block.process_block_header env block)
  unfolding Block.process_block_header
  process_block_header-IsInStep block =
      search (keeps_rules, on_common-IsInStep, with_header-IsConsistent) depth 18

  pub process_block-IsInStep :
      (block : BeaconBlock) (engine : ExecutionEngine)
      → Keeps (IsInStep k) (Block.process_block env block engine)
  unfolding Block.process_block Block.process_randao Block.process_eth1_data
      Block.process_sync_aggregate
  process_block-IsInStep block engine =
      search
        (
          keeps_rules, on_common-IsInStep, process_block_header-IsInStep,
          process_execution_payload-IsInStep, process_randao-IsConsistent,
          process_eth1_data-IsConsistent, process_operations-IsInStep,
          process_sync_aggregate-IsConsistent,
        )
        depth 14
