-- ===== src/EpochProcessing/Registry/Shape.antt =====
-- The registry updates keep the shape of the state.
use ethereum_consensus.Types.{Epoch, ValidatorIndex}
use ethereum_consensus.Action.Keeps.{Keeps, keeps_rules}
use ethereum_consensus.Env.{Env}
use ethereum_consensus.Shape.{Shape, HasShape}
use ethereum_consensus.Helpers.Exits.Shape.{
  update_validator-HasShape, initiate_validator_exit-HasShape,
}
use ethereum_consensus.EpochProcessing.Registry.{update_eligibility, process_registry_updates}

module _ (env : Env) {k : Shape} where
  update_eligibility-HasShape :
      (epoch : Epoch) (i : ValidatorIndex) → Keeps (HasShape k) (update_eligibility env epoch i)
  unfolding update_eligibility
  update_eligibility-HasShape epoch i =
      search (keeps_rules, update_validator-HasShape, initiate_validator_exit-HasShape) depth 9

  pub process_registry_updates-HasShape : Keeps (HasShape k) (process_registry_updates env)
  unfolding process_registry_updates
  process_registry_updates-HasShape =
      search (keeps_rules, update_eligibility-HasShape, update_validator-HasShape) depth 12
