-- ===== src/EpochProcessing/Process/Shape.antt =====
-- The whole of `process_epoch` keeps the shape of the state.
use ethereum_consensus.Prelude.{◌≡◌, length}
use ethereum_consensus.Types.{BeaconState}
use ethereum_consensus.Action.Keeps.{Keeps, keeps_rules}
use ethereum_consensus.Env.{Env}
use ethereum_consensus.Shape.{Shape, HasShape, shape_of, HasShape-shape_of}
use ethereum_consensus.EpochProcessing.Justification.Shape.{process_justification-HasShape}
use ethereum_consensus.EpochProcessing.Registry.Shape.{process_registry_updates-HasShape}
use ethereum_consensus.EpochProcessing.Penalties.Shape.{
  process_rewards_and_penalties-HasShape, process_slashings-HasShape,
  process_effective_balance_updates-HasShape,
}
use ethereum_consensus.EpochProcessing.Resets.Shape.{
  process_eth1_data_reset-HasShape, process_slashings_reset-HasShape,
  process_randao_mixes_reset-HasShape, process_historical_roots_update-HasShape,
  process_participation_record_updates-HasShape,
}
use ethereum_consensus.EpochProcessing.Process.{process_epoch}

module _ (env : Env) {k : Shape} where
  pub process_epoch-HasShape : Keeps (HasShape k) (process_epoch env)
  unfolding process_epoch
  process_epoch-HasShape =
      search
        (
          keeps_rules, process_justification-HasShape, process_rewards_and_penalties-HasShape,
          process_registry_updates-HasShape, process_slashings-HasShape,
          process_eth1_data_reset-HasShape, process_effective_balance_updates-HasShape,
          process_slashings_reset-HasShape, process_randao_mixes_reset-HasShape,
          process_historical_roots_update-HasShape, process_participation_record_updates-HasShape,
        )
        depth 14

-- If every validator has a balance before an epoch is processed, then however that ends, the state
-- that it leaves has the slot and the vector lengths that it had before, and a balance for each
-- validator.
pub process_epoch_keeps_shape :
    (env : Env) (s : BeaconState)
    → length s.balances ≡ length s.validators
    → HasShape (shape_of s) (process_epoch env s).1
process_epoch_keeps_shape env s valid =
    (process_epoch-HasShape env).at s (HasShape-shape_of s valid)
