-- ===== src/BlockProcessing/Randao/Shape.antt =====
-- `process_randao` and `process_eth1_data` keep the shape of the state.
use ethereum_consensus.Prelude.{arith}
use ethereum_consensus.Types.{Eth1Data, BeaconBlockBody, BeaconState}
use ethereum_consensus.Action.Keeps.{Keeps, Keeps-modify, keeps_rules}
use ethereum_consensus.Env.{Env}
use ethereum_consensus.Shape.{Shape, HasShape}
use ethereum_consensus.EpochProcessing.Resets.Shape.{write_mix-HasShape}
use ethereum_consensus.BlockProcessing.Randao.{
  push_vote, with_eth1_data, process_randao, process_eth1_data,
}

module _ {k : Shape} where
  push_vote-HasShape : (d : Eth1Data) (s : BeaconState) → HasShape k s → HasShape k (push_vote d s)
  unfolding push_vote
  push_vote-HasShape d s h = ground arith

  with_eth1_data-HasShape :
      (d : Eth1Data) (s : BeaconState) → HasShape k s → HasShape k (with_eth1_data d s)
  unfolding with_eth1_data
  with_eth1_data-HasShape d s h = ground arith

module _ (env : Env) {k : Shape} where
  pub process_randao-HasShape :
      (body : BeaconBlockBody) → Keeps (HasShape k) (process_randao env body)
  unfolding process_randao
  process_randao-HasShape body = search (keeps_rules, write_mix-HasShape) depth 14

  pub process_eth1_data-HasShape :
      (body : BeaconBlockBody) → Keeps (HasShape k) (process_eth1_data env body)
  unfolding process_eth1_data
  process_eth1_data-HasShape body =
      search (keeps_rules, Keeps-modify, push_vote-HasShape, with_eth1_data-HasShape) depth 9
