-- ===== src/Altair/EpochProcessing/Shape.antt =====
-- The steps of an altair epoch keep the lists of the state in step.
use ethereum_consensus.Prelude.{ℕ, Bool, List, length, length-set, length-replicate, arith}
use ethereum_consensus.Types.{Gwei, ValidatorIndex}
use ethereum_consensus.Types.Altair.{BeaconState, SyncCommittee}
use ethereum_consensus.Action.Keeps.{Keeps, Keeps-modify, keeps_rules}
use ethereum_consensus.Env.{Env}
use ethereum_consensus.Shape.{Shape}
use ethereum_consensus.EpochProcessing.Justification.Shape.{weigh-HasShape}
use ethereum_consensus.EpochProcessing.Penalties as Penalties
use ethereum_consensus.EpochProcessing.Penalties.Shape.{
  apply_deltas-HasShape, penalize-HasShape, process_effective_balance_updates-HasShape,
}
use ethereum_consensus.EpochProcessing.Registry.Shape.{process_registry_updates-HasShape}
use ethereum_consensus.EpochProcessing.Resets.Shape.{
  process_eth1_data_reset-HasShape, process_slashings_reset-HasShape,
  process_randao_mixes_reset-HasShape, process_historical_roots_update-HasShape,
}
use ethereum_consensus.EpochProcessing.Rewards.{Deltas}
use ethereum_consensus.RegistrySize.Epochs.{
  apply_deltas-HasSize, penalize-HasSize, weigh_justification-HasSize,
  process_registry_updates-HasSize, process_effective_balance_updates-HasSize,
  process_eth1_data_reset-HasSize, process_slashings_reset-HasSize,
  process_randao_mixes_reset-HasSize, process_historical_roots_update-HasSize,
}
use ethereum_consensus.Altair.Shared.{shared, on_shared}
use ethereum_consensus.Altair.Consistent.{IsConsistent, on_shared-IsConsistent}
use ethereum_consensus.Altair.EpochProcessing.{
  set_score, rotate_participation, process_participation_flag_updates, rotate_committees,
  weigh_justification_and_finalization, process_justification_and_finalization, update_score,
  process_inactivity_updates, process_rewards_and_penalties, process_registry_updates,
  process_slashings, process_eth1_data_reset, process_effective_balance_updates,
  process_slashings_reset, process_randao_mixes_reset, process_historical_roots_update,
  process_sync_committee_updates, process_epoch,
}

module _ {k : Shape} where
  set_score-IsConsistent :
      (i score : ℕ) (s : BeaconState) → IsConsistent k s → IsConsistent k (set_score i score s)
  unfolding set_score shared
  set_score-IsConsistent i score s h =
      ground (arith, length-set s.inactivity_scores i score, h.shared_is)

  rotate_participation-IsConsistent :
      (s : BeaconState) → IsConsistent k s → IsConsistent k (rotate_participation s)
  unfolding rotate_participation shared
  rotate_participation-IsConsistent s h =
      ground (arith, length-replicate {A = ℕ} (length s.validators) 0, h.shared_is)

  rotate_committees-IsConsistent :
      (c : SyncCommittee) (s : BeaconState)
      → IsConsistent k s
      → IsConsistent k (rotate_committees c s)
  unfolding rotate_committees shared
  rotate_committees-IsConsistent c s h = ground (arith, h.shared_is)

  pub participation_flag_updates-IsConsistent :
      Keeps (IsConsistent k) process_participation_flag_updates
  unfolding process_participation_flag_updates
  participation_flag_updates-IsConsistent = Keeps-modify _ rotate_participation-IsConsistent

  apply_deltas-IsConsistent :
      (d : Deltas) (i : ℕ) → Keeps (IsConsistent k) (on_shared (Penalties.apply_deltas d i))
  apply_deltas-IsConsistent d i =
      on_shared-IsConsistent _ (apply_deltas-HasShape d i) (λ n. apply_deltas-HasSize d i)

module _ (env : Env) {k : Shape} where
  weigh-IsConsistent :
      (total previous current : Gwei)
      → Keeps (IsConsistent k) (weigh_justification_and_finalization env total previous current)
  unfolding weigh_justification_and_finalization
  weigh-IsConsistent total previous current =
      on_shared-IsConsistent _ (weigh-HasShape env total previous current)
        (λ n. weigh_justification-HasSize env total previous current)

  pub process_justification-IsConsistent :
      Keeps (IsConsistent k) (process_justification_and_finalization env)
  unfolding process_justification_and_finalization
  process_justification-IsConsistent = search (keeps_rules, weigh-IsConsistent) depth 16

  update_score-IsConsistent :
      (indices : List ValidatorIndex) (not_leaking : Bool) (i : ValidatorIndex)
      → Keeps (IsConsistent k) (update_score env indices not_leaking i)
  unfolding update_score
  update_score-IsConsistent indices not_leaking i =
      search (keeps_rules, Keeps-modify, set_score-IsConsistent) depth 9

  pub inactivity_updates-IsConsistent : Keeps (IsConsistent k) (process_inactivity_updates env)
  unfolding process_inactivity_updates
  inactivity_updates-IsConsistent = search (keeps_rules, update_score-IsConsistent) depth 14

  pub rewards_and_penalties-IsConsistent :
      Keeps (IsConsistent k) (process_rewards_and_penalties env)
  unfolding process_rewards_and_penalties
  rewards_and_penalties-IsConsistent = search (keeps_rules, apply_deltas-IsConsistent) depth 14

  pub registry_updates-IsConsistent : Keeps (IsConsistent k) (process_registry_updates env)
  unfolding process_registry_updates
  registry_updates-IsConsistent =
      on_shared-IsConsistent _ (process_registry_updates-HasShape env)
        (λ n. process_registry_updates-HasSize env)

  penalize-IsConsistent :
      (epoch adjusted total i : ℕ)
      → Keeps (IsConsistent k) (on_shared (Penalties.penalize env epoch adjusted total i))
  penalize-IsConsistent epoch adjusted total i =
      on_shared-IsConsistent _ (penalize-HasShape env epoch adjusted total i)
        (λ n. penalize-HasSize env epoch adjusted total i)

  pub process_slashings-IsConsistent : Keeps (IsConsistent k) (process_slashings env)
  unfolding process_slashings
  process_slashings-IsConsistent = search (keeps_rules, penalize-IsConsistent) depth 14

  pub eth1_data_reset-IsConsistent : Keeps (IsConsistent k) (process_eth1_data_reset env)
  unfolding process_eth1_data_reset
  eth1_data_reset-IsConsistent =
      on_shared-IsConsistent _ (process_eth1_data_reset-HasShape env)
        (λ n. process_eth1_data_reset-HasSize env)

  pub effective_balance_updates-IsConsistent :
      Keeps (IsConsistent k) (process_effective_balance_updates env)
  unfolding process_effective_balance_updates
  effective_balance_updates-IsConsistent =
      on_shared-IsConsistent _ (process_effective_balance_updates-HasShape env)
        (λ n. process_effective_balance_updates-HasSize env)

  pub slashings_reset-IsConsistent : Keeps (IsConsistent k) (process_slashings_reset env)
  unfolding process_slashings_reset
  slashings_reset-IsConsistent =
      on_shared-IsConsistent _ (process_slashings_reset-HasShape env)
        (λ n. process_slashings_reset-HasSize env)

  pub randao_mixes_reset-IsConsistent : Keeps (IsConsistent k) (process_randao_mixes_reset env)
  unfolding process_randao_mixes_reset
  randao_mixes_reset-IsConsistent =
      on_shared-IsConsistent _ (process_randao_mixes_reset-HasShape env)
        (λ n. process_randao_mixes_reset-HasSize env)

  pub historical_roots_update-IsConsistent :
      Keeps (IsConsistent k) (process_historical_roots_update env)
  unfolding process_historical_roots_update
  historical_roots_update-IsConsistent =
      on_shared-IsConsistent _ (process_historical_roots_update-HasShape env)
        (λ n. process_historical_roots_update-HasSize env)

  pub sync_committee_updates-IsConsistent :
      Keeps (IsConsistent k) (process_sync_committee_updates env)
  unfolding process_sync_committee_updates
  sync_committee_updates-IsConsistent =
      search (keeps_rules, Keeps-modify, rotate_committees-IsConsistent) depth 9

  pub process_epoch-IsConsistent : Keeps (IsConsistent k) (process_epoch env)
  unfolding process_epoch
  process_epoch-IsConsistent =
      search
        (
          keeps_rules, process_justification-IsConsistent, inactivity_updates-IsConsistent,
          rewards_and_penalties-IsConsistent, registry_updates-IsConsistent,
          process_slashings-IsConsistent, eth1_data_reset-IsConsistent,
          effective_balance_updates-IsConsistent, slashings_reset-IsConsistent,
          randao_mixes_reset-IsConsistent, historical_roots_update-IsConsistent,
          participation_flag_updates-IsConsistent, sync_committee_updates-IsConsistent,
        )
        depth 15
