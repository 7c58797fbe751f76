-- ===== src/BlockProcessing/Process/Shape.antt =====
-- The whole of `process_block` keeps the shape of the state.
use ethereum_consensus.Prelude.{◌≡◌, length}
use ethereum_consensus.Types.{BeaconBlock, BeaconBlockBody, BeaconState}
use ethereum_consensus.Action.Keeps.{Keeps, keeps_rules}
use ethereum_consensus.Env.{Env}
use ethereum_consensus.Shape.{Shape, HasShape, shape_of, HasShape-shape_of}
use ethereum_consensus.BlockProcessing.Header.Shape.{process_block_header-HasShape}
use ethereum_consensus.BlockProcessing.Randao.Shape.{
  process_randao-HasShape, process_eth1_data-HasShape,
}
use ethereum_consensus.BlockProcessing.Slashings.Shape.{
  process_proposer_slashing-HasShape, process_attester_slashing-HasShape,
}
use ethereum_consensus.BlockProcessing.Attestations.Shape.{process_attestation-HasShape}
use ethereum_consensus.BlockProcessing.Deposits.Shape.{process_deposit-HasShape}
use ethereum_consensus.BlockProcessing.Exits.Shape.{process_voluntary_exit-HasShape}
use ethereum_consensus.BlockProcessing.Process.{process_operations, process_block}

module _ (env : Env) {k : Shape} where
  process_operations-HasShape :
      (body : BeaconBlockBody) → Keeps (HasShape k) (process_operations env body)
  unfolding process_operations
  process_operations-HasShape body =
      search
        (
          keeps_rules, process_proposer_slashing-HasShape, process_attester_slashing-HasShape,
          process_attestation-HasShape, process_deposit-HasShape, process_voluntary_exit-HasShape,
        )
        depth 14

  pub process_block-HasShape : (block : BeaconBlock) → Keeps (HasShape k) (process_block env block)
  unfolding process_block
  process_block-HasShape block =
      search
        (
          keeps_rules, process_block_header-HasShape, process_randao-HasShape,
          process_eth1_data-HasShape, process_operations-HasShape,
        )
        depth 9

-- If every validator has a balance before a block is processed, then however that ends, the state
-- that it leaves has the slot and the vector lengths that it had before, and a balance for each
-- validator, new ones too.
pub process_block_keeps_shape :
    (env : Env) (block : BeaconBlock) (s : BeaconState)
    → length s.balances ≡ length s.validators
    → HasShape (shape_of s) (process_block env block s).1
process_block_keeps_shape env block s valid =
    (process_block-HasShape env block).at s (HasShape-shape_of s valid)
