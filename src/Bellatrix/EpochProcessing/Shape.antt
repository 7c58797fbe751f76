-- ===== src/Bellatrix/EpochProcessing/Shape.antt =====
-- The steps of an epoch leave the lists of a bellatrix state in step.
use ethereum_consensus.Action.Keeps.{Keeps, keeps_rules}
use ethereum_consensus.Env.{Env}
use ethereum_consensus.Shape.{Shape}
use ethereum_consensus.Altair.EpochProcessing.Shape.{
  process_justification-IsConsistent, inactivity_updates-IsConsistent,
  rewards_and_penalties-IsConsistent, registry_updates-IsConsistent, process_slashings-IsConsistent,
  eth1_data_reset-IsConsistent, effective_balance_updates-IsConsistent,
  slashings_reset-IsConsistent, randao_mixes_reset-IsConsistent,
  historical_roots_update-IsConsistent, participation_flag_updates-IsConsistent,
  sync_committee_updates-IsConsistent,
}
use ethereum_consensus.Bellatrix.InStep.{IsInStep, on_common-IsInStep}
use ethereum_consensus.Bellatrix.EpochProcessing as Epoch

module _ (env : Env) {k : Shape} where
  pub process_epoch-IsInStep : Keeps (IsInStep k) (Epoch.process_epoch env)
  unfolding Epoch.process_epoch Epoch.process_justification_and_finalization
      Epoch.process_inactivity_updates Epoch.process_rewards_and_penalties
      Epoch.process_registry_updates Epoch.process_slashings Epoch.process_eth1_data_reset
      Epoch.process_effective_balance_updates Epoch.process_slashings_reset
      Epoch.process_randao_mixes_reset Epoch.process_historical_roots_update
      Epoch.process_participation_flag_updates Epoch.process_sync_committee_updates
  process_epoch-IsInStep =
      search
        (
          keeps_rules, on_common-IsInStep, process_justification-IsConsistent,
          inactivity_updates-IsConsistent, rewards_and_penalties-IsConsistent,
          registry_updates-IsConsistent, process_slashings-IsConsistent,
          eth1_data_reset-IsConsistent, effective_balance_updates-IsConsistent,
          slashings_reset-IsConsistent, randao_mixes_reset-IsConsistent,
          historical_roots_update-IsConsistent, participation_flag_updates-IsConsistent,
          sync_committee_updates-IsConsistent,
        )
        depth 18
