-- ===== src/History/Epochs.antt =====
-- The steps of an epoch leave the slot and the block roots as they are.
use ethereum_consensus.Prelude.{ℕ, List, arith}
use ethereum_consensus.Types.{Slot, Epoch, Gwei, Checkpoint, Root, ValidatorIndex, BeaconState}
use ethereum_consensus.Action.Keeps.{Keeps, Keeps-modify, keeps_rules}
use ethereum_consensus.Env.{Env}
use ethereum_consensus.EpochProcessing.Justification.{
  begin_justification, justify_previous, justify_current, with_finalized, justify_epoch,
  weigh_justification_and_finalization, process_justification_and_finalization,
}
use ethereum_consensus.EpochProcessing.Penalties.{
  apply_deltas, process_rewards_and_penalties, penalize, process_slashings,
  update_effective_balance, process_effective_balance_updates,
}
use ethereum_consensus.EpochProcessing.Rewards.{Deltas}
use ethereum_consensus.EpochProcessing.Registry.{update_eligibility, process_registry_updates}
use ethereum_consensus.EpochProcessing.Resets.{
  clear_votes, clear_slashing, push_historical_root, process_participation_record_updates,
  process_eth1_data_reset, process_slashings_reset, process_randao_mixes_reset,
  process_historical_roots_update,
}
use ethereum_consensus.EpochProcessing.Process.{process_epoch}
use ethereum_consensus.History.{
  HasHistory, increase_balance-HasHistory, decrease_balance-HasHistory, update_validator-HasHistory,
  set_slashing-HasHistory, write_mix-HasHistory, initiate_validator_exit-HasHistory,
}

module _ {slot : Slot} {roots : List Root} where
  begin_justification-HasHistory :
      (s : BeaconState) → HasHistory slot roots s → HasHistory slot roots (begin_justification s)
  unfolding begin_justification
  begin_justification-HasHistory s h = ground arith

  justify_previous-HasHistory :
      (c : Checkpoint) (s : BeaconState)
      → HasHistory slot roots s
      → HasHistory slot roots (justify_previous c s)
  unfolding justify_previous
  justify_previous-HasHistory c s h = ground arith

  justify_current-HasHistory :
      (c : Checkpoint) (s : BeaconState)
      → HasHistory slot roots s
      → HasHistory slot roots (justify_current c s)
  unfolding justify_current
  justify_current-HasHistory c s h = ground arith

  with_finalized-HasHistory :
      (c : Checkpoint) (s : BeaconState)
      → HasHistory slot roots s
      → HasHistory slot roots (with_finalized c s)
  unfolding with_finalized
  with_finalized-HasHistory c s h = ground arith

  clear_votes-HasHistory :
      (s : BeaconState) → HasHistory slot roots s → HasHistory slot roots (clear_votes s)
  unfolding clear_votes
  clear_votes-HasHistory s h = ground arith

  push_historical_root-HasHistory :
      (root : Root) (s : BeaconState)
      → HasHistory slot roots s
      → HasHistory slot roots (push_historical_root root s)
  unfolding push_historical_root
  push_historical_root-HasHistory root s h = ground arith

  clear_slashing-HasHistory : (i : ℕ) → Keeps (HasHistory slot roots) (clear_slashing i)
  unfolding clear_slashing
  clear_slashing-HasHistory i = search (keeps_rules, Keeps-modify, set_slashing-HasHistory)

  apply_deltas-HasHistory : (d : Deltas) (i : ℕ) → Keeps (HasHistory slot roots) (apply_deltas d i)
  unfolding apply_deltas
  apply_deltas-HasHistory d i =
      search (keeps_rules, increase_balance-HasHistory, decrease_balance-HasHistory) depth 9

module _ (env : Env) {slot : Slot} {roots : List Root} where
  justify_epoch-HasHistory :
      (justify : Checkpoint → BeaconState → BeaconState) (target total epoch : ℕ)
      → ((c : Checkpoint) (s : BeaconState)
          → HasHistory slot roots s
          → HasHistory slot roots (justify c s))
      → Keeps (HasHistory slot roots) (justify_epoch env justify target total epoch)
  unfolding justify_epoch
  justify_epoch-HasHistory justify target total epoch h = search (keeps_rules, Keeps-modify) depth 9

  weigh_justification-HasHistory :
      (total previous current : Gwei)
      → Keeps
          (HasHistory slot roots)
          (weigh_justification_and_finalization env total previous current)
  unfolding weigh_justification_and_finalization
  weigh_justification-HasHistory total previous current =
      search
        (
          keeps_rules, Keeps-modify, justify_epoch-HasHistory, begin_justification-HasHistory,
          justify_previous-HasHistory, justify_current-HasHistory, with_finalized-HasHistory,
        )
        depth 16

  process_justification-HasHistory :
      Keeps (HasHistory slot roots) (process_justification_and_finalization env)
  unfolding process_justification_and_finalization
  process_justification-HasHistory = search (keeps_rules, weigh_justification-HasHistory) depth 16

  process_rewards_and_penalties-HasHistory :
      Keeps (HasHistory slot roots) (process_rewards_and_penalties env)
  unfolding process_rewards_and_penalties
  process_rewards_and_penalties-HasHistory = search (keeps_rules, apply_deltas-HasHistory) depth 9

  update_eligibility-HasHistory :
      (epoch : Epoch) (i : ValidatorIndex)
      → Keeps (HasHistory slot roots) (update_eligibility env epoch i)
  unfolding update_eligibility
  update_eligibility-HasHistory epoch i =
      search (keeps_rules, update_validator-HasHistory, initiate_validator_exit-HasHistory) depth 9

  process_registry_updates-HasHistory : Keeps (HasHistory slot roots) (process_registry_updates env)
  unfolding process_registry_updates
  process_registry_updates-HasHistory =
      search (keeps_rules, update_eligibility-HasHistory, update_validator-HasHistory) depth 12

  penalize-HasHistory :
      (epoch : Epoch) (adjusted total : Gwei) (i : ℕ)
      → Keeps (HasHistory slot roots) (penalize env epoch adjusted total i)
  unfolding penalize
  penalize-HasHistory epoch adjusted total i =
      search (keeps_rules, decrease_balance-HasHistory) depth 9

  process_slashings-HasHistory : Keeps (HasHistory slot roots) (process_slashings env)
  unfolding process_slashings
  process_slashings-HasHistory = search (keeps_rules, penalize-HasHistory) depth 9

  update_effective_balance-HasHistory :
      (downward upward : Gwei) (i : ℕ)
      → Keeps (HasHistory slot roots) (update_effective_balance env downward upward i)
  unfolding update_effective_balance
  update_effective_balance-HasHistory downward upward i =
      search (keeps_rules, update_validator-HasHistory) depth 9

  process_effective_balance_updates-HasHistory :
      Keeps (HasHistory slot roots) (process_effective_balance_updates env)
  unfolding process_effective_balance_updates
  process_effective_balance_updates-HasHistory =
      search (keeps_rules, update_effective_balance-HasHistory) depth 9

  process_eth1_data_reset-HasHistory : Keeps (HasHistory slot roots) (process_eth1_data_reset env)
  unfolding process_eth1_data_reset
  process_eth1_data_reset-HasHistory =
      search (keeps_rules, Keeps-modify, clear_votes-HasHistory) depth 9

  process_slashings_reset-HasHistory : Keeps (HasHistory slot roots) (process_slashings_reset env)
  unfolding process_slashings_reset
  process_slashings_reset-HasHistory = search (keeps_rules, clear_slashing-HasHistory) depth 9

  process_randao_mixes_reset-HasHistory :
      Keeps (HasHistory slot roots) (process_randao_mixes_reset env)
  unfolding process_randao_mixes_reset
  process_randao_mixes_reset-HasHistory = search (keeps_rules, write_mix-HasHistory) depth 9

  process_historical_roots_update-HasHistory :
      Keeps (HasHistory slot roots) (process_historical_roots_update env)
  unfolding process_historical_roots_update
  process_historical_roots_update-HasHistory =
      search (keeps_rules, Keeps-modify, push_historical_root-HasHistory) depth 12

  participation_record_updates-HasHistory :
      Keeps (HasHistory slot roots) process_participation_record_updates
  unfolding process_participation_record_updates
  participation_record_updates-HasHistory = Keeps-modify _ (λ s h. ground arith)

  pub process_epoch-HasHistory : Keeps (HasHistory slot roots) (process_epoch env)
  unfolding process_epoch
  process_epoch-HasHistory =
      search
        (
          keeps_rules, process_justification-HasHistory, process_rewards_and_penalties-HasHistory,
          process_registry_updates-HasHistory, process_slashings-HasHistory,
          process_eth1_data_reset-HasHistory, process_effective_balance_updates-HasHistory,
          process_slashings_reset-HasHistory, process_randao_mixes_reset-HasHistory,
          process_historical_roots_update-HasHistory, participation_record_updates-HasHistory,
        )
        depth 14
