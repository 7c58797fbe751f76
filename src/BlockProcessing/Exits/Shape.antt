-- ===== src/BlockProcessing/Exits/Shape.antt =====
-- `process_voluntary_exit` keeps the shape of the state.
use ethereum_consensus.Types.{SignedVoluntaryExit}
use ethereum_consensus.Action.Keeps.{Keeps, keeps_rules}
use ethereum_consensus.Env.{Env}
use ethereum_consensus.Shape.{Shape, HasShape}
use ethereum_consensus.Helpers.Exits.Shape.{initiate_validator_exit-HasShape}
use ethereum_consensus.BlockProcessing.Exits.{process_voluntary_exit}

module _ (env : Env) {k : Shape} where
  pub process_voluntary_exit-HasShape :
      (op : SignedVoluntaryExit) → Keeps (HasShape k) (process_voluntary_exit env op)
  unfolding process_voluntary_exit
  process_voluntary_exit-HasShape op =
      search (keeps_rules, initiate_validator_exit-HasShape) depth 16
