-- ===== src/Bellatrix/EpochProcessing.antt =====
-- ethereum-consensus/src/bellatrix/epoch_processing.rs and the steps in bellatrix/spec/mod.rs.
pub mod Shape
use ethereum_consensus.Types.Bellatrix.{BeaconState}
use ethereum_consensus.Action.{StateAction, ◌>>◌}
use ethereum_consensus.Env.{Env}
use ethereum_consensus.Altair.EpochProcessing as Altair
use ethereum_consensus.Bellatrix.Shared.{bellatrix_env, on_common}

unfoldable pub process_participation_flag_updates : StateAction BeaconState (Unit {0})
process_participation_flag_updates = on_common Altair.process_participation_flag_updates

module _ (env : Env) where
  unfoldable pub process_justification_and_finalization : StateAction BeaconState (Unit {0})
  process_justification_and_finalization =
      on_common (Altair.process_justification_and_finalization (bellatrix_env env))

  unfoldable pub process_inactivity_updates : StateAction BeaconState (Unit {0})
  process_inactivity_updates = on_common (Altair.process_inactivity_updates (bellatrix_env env))

  unfoldable pub process_rewards_and_penalties : StateAction BeaconState (Unit {0})
  process_rewards_and_penalties =
      on_common (Altair.process_rewards_and_penalties (bellatrix_env env))

  unfoldable pub process_registry_updates : StateAction BeaconState (Unit {0})
  process_registry_updates = on_common (Altair.process_registry_updates (bellatrix_env env))

  unfoldable pub process_slashings : StateAction BeaconState (Unit {0})
  process_slashings = on_common (Altair.process_slashings (bellatrix_env env))

  unfoldable pub process_eth1_data_reset : StateAction BeaconState (Unit {0})
  process_eth1_data_reset = on_common (Altair.process_eth1_data_reset (bellatrix_env env))

  unfoldable pub process_effective_balance_updates : StateAction BeaconState (Unit {0})
  process_effective_balance_updates =
      on_common (Altair.process_effective_balance_updates (bellatrix_env env))

  unfoldable pub process_slashings_reset : StateAction BeaconState (Unit {0})
  process_slashings_reset = on_common (Altair.process_slashings_reset (bellatrix_env env))

  unfoldable pub process_randao_mixes_reset : StateAction BeaconState (Unit {0})
  process_randao_mixes_reset = on_common (Altair.process_randao_mixes_reset (bellatrix_env env))

  unfoldable pub process_historical_roots_update : StateAction BeaconState (Unit {0})
  process_historical_roots_update =
      on_common (Altair.process_historical_roots_update (bellatrix_env env))

  unfoldable pub process_sync_committee_updates : StateAction BeaconState (Unit {0})
  process_sync_committee_updates =
      on_common (Altair.process_sync_committee_updates (bellatrix_env env))

  unfoldable pub process_epoch : StateAction BeaconState (Unit {0})
  process_epoch = do
    process_justification_and_finalization
    process_inactivity_updates
    process_rewards_and_penalties
    process_registry_updates
    process_slashings
    process_eth1_data_reset
    process_effective_balance_updates
    process_slashings_reset
    process_randao_mixes_reset
    process_historical_roots_update
    process_participation_flag_updates
    process_sync_committee_updates
