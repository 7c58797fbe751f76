-- ===== src/BlockProcessing/Header/Shape.antt =====
-- `process_block_header` keeps the shape of the state.
use ethereum_consensus.Prelude.{arith}
use ethereum_consensus.Types.{BeaconBlock, BeaconBlockHeader, BeaconState}
use ethereum_consensus.Action.Keeps.{Keeps, Keeps-modify, keeps_rules}
use ethereum_consensus.Env.{Env}
use ethereum_consensus.Shape.{Shape, HasShape}
use ethereum_consensus.BlockProcessing.Header.{with_header, process_block_header}

module _ {k : Shape} where
  pub with_header-HasShape :
      (h : BeaconBlockHeader) (s : BeaconState) → HasShape k s → HasShape k (with_header h s)
  unfolding with_header
  with_header-HasShape header s h = ground arith

module _ (env : Env) {k : Shape} where
  pub process_block_header-HasShape :
      (block : BeaconBlock) → Keeps (HasShape k) (process_block_header env block)
  unfolding process_block_header
  process_block_header-HasShape block =
      search (keeps_rules, Keeps-modify, with_header-HasShape) depth 16
