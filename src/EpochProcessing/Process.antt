-- ===== src/EpochProcessing/Process.antt =====
-- ethereum-consensus/src/phase0/epoch_processing.rs: `process_epoch`, the steps in their order.
pub mod Shape
use ethereum_consensus.Action.{Action, ◌>>◌}
use ethereum_consensus.Env.{Env}
use ethereum_consensus.EpochProcessing.Justification.{process_justification_and_finalization}
use ethereum_consensus.EpochProcessing.Registry.{process_registry_updates}
use ethereum_consensus.EpochProcessing.Penalties.{
  process_rewards_and_penalties, process_slashings, process_effective_balance_updates,
}
use ethereum_consensus.EpochProcessing.Resets.{
  process_eth1_data_reset, process_slashings_reset, process_randao_mixes_reset,
  process_historical_roots_update, process_participation_record_updates,
}

module _ (env : Env) where
  unfoldable pub process_epoch : Action (Unit {0})
  process_epoch = do
    process_justification_and_finalization env
    process_rewards_and_penalties env
    process_registry_updates env
    process_slashings env
    process_eth1_data_reset env
    process_effective_balance_updates env
    process_slashings_reset env
    process_randao_mixes_reset env
    process_historical_roots_update env
    process_participation_record_updates
