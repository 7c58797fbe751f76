-- ===== src/RegistrySize/Epochs.antt =====
-- The steps of an epoch leave the number of validators as it is.
use ethereum_consensus.Prelude.{ℕ, ◌≡◌, refl, length, arith}
use ethereum_consensus.Types.{Epoch, Gwei, Checkpoint, Root, ValidatorIndex, BeaconState}
use ethereum_consensus.Action.Keeps.{Keeps, Keeps-modify, keeps_rules}
use ethereum_consensus.Env.{Env}
use ethereum_consensus.EpochProcessing.Justification.{
  begin_justification, justify_previous, justify_current, with_finalized, justify_epoch,
  weigh_justification_and_finalization, process_justification_and_finalization,
}
use ethereum_consensus.EpochProcessing.Penalties.{
  apply_deltas, process_rewards_and_penalties, penalize, process_slashings,
  update_effective_balance, process_effective_balance_updates,
}
use ethereum_consensus.EpochProcessing.Rewards.{Deltas}
use ethereum_consensus.EpochProcessing.Registry.{update_eligibility, process_registry_updates}
use ethereum_consensus.EpochProcessing.Resets.{
  clear_votes, clear_slashing, push_historical_root, process_participation_record_updates,
  process_eth1_data_reset, process_slashings_reset, process_randao_mixes_reset,
  process_historical_roots_update,
}
use ethereum_consensus.EpochProcessing.Process.{process_epoch}
use ethereum_consensus.RegistrySize.{
  HasSize, increase_balance-HasSize, decrease_balance-HasSize, update_validator-HasSize,
  set_slashing-HasSize, write_mix-HasSize, initiate_validator_exit-HasSize,
}

module _ {n : ℕ} where
  begin_justification-HasSize : (s : BeaconState) → HasSize n s → HasSize n (begin_justification s)
  unfolding begin_justification
  begin_justification-HasSize s h = ground arith

  justify_previous-HasSize :
      (c : Checkpoint) (s : BeaconState) → HasSize n s → HasSize n (justify_previous c s)
  unfolding justify_previous
  justify_previous-HasSize c s h = ground arith

  justify_current-HasSize :
      (c : Checkpoint) (s : BeaconState) → HasSize n s → HasSize n (justify_current c s)
  unfolding justify_current
  justify_current-HasSize c s h = ground arith

  with_finalized-HasSize :
      (c : Checkpoint) (s : BeaconState) → HasSize n s → HasSize n (with_finalized c s)
  unfolding with_finalized
  with_finalized-HasSize c s h = ground arith

  clear_votes-HasSize : (s : BeaconState) → HasSize n s → HasSize n (clear_votes s)
  unfolding clear_votes
  clear_votes-HasSize s h = ground arith

  push_historical_root-HasSize :
      (root : Root) (s : BeaconState) → HasSize n s → HasSize n (push_historical_root root s)
  unfolding push_historical_root
  push_historical_root-HasSize root s h = ground arith

  clear_slashing-HasSize : (i : ℕ) → Keeps (HasSize n) (clear_slashing i)
  unfolding clear_slashing
  clear_slashing-HasSize i = search (keeps_rules, Keeps-modify, set_slashing-HasSize)

  pub apply_deltas-HasSize : (d : Deltas) (i : ℕ) → Keeps (HasSize n) (apply_deltas d i)
  unfolding apply_deltas
  apply_deltas-HasSize d i =
      search (keeps_rules, increase_balance-HasSize, decrease_balance-HasSize) depth 9

module _ (env : Env) {n : ℕ} where
  justify_epoch-HasSize :
      (justify : Checkpoint → BeaconState → BeaconState) (target total epoch : ℕ)
      → ((c : Checkpoint) (s : BeaconState) → HasSize n s → HasSize n (justify c s))
      → Keeps (HasSize n) (justify_epoch env justify target total epoch)
  unfolding justify_epoch
  justify_epoch-HasSize justify target total epoch h = search (keeps_rules, Keeps-modify) depth 9

  pub weigh_justification-HasSize :
      (total previous current : Gwei)
      → Keeps (HasSize n) (weigh_justification_and_finalization env total previous current)
  unfolding weigh_justification_and_finalization
  weigh_justification-HasSize total previous current =
      search
        (
          keeps_rules, Keeps-modify, justify_epoch-HasSize, begin_justification-HasSize,
          justify_previous-HasSize, justify_current-HasSize, with_finalized-HasSize,
        )
        depth 16

  process_justification-HasSize : Keeps (HasSize n) (process_justification_and_finalization env)
  unfolding process_justification_and_finalization
  process_justification-HasSize = search (keeps_rules, weigh_justification-HasSize) depth 16

  process_rewards_and_penalties-HasSize : Keeps (HasSize n) (process_rewards_and_penalties env)
  unfolding process_rewards_and_penalties
  process_rewards_and_penalties-HasSize = search (keeps_rules, apply_deltas-HasSize) depth 9

  update_eligibility-HasSize :
      (epoch : Epoch) (i : ValidatorIndex) → Keeps (HasSize n) (update_eligibility env epoch i)
  unfolding update_eligibility
  update_eligibility-HasSize epoch i =
      search (keeps_rules, update_validator-HasSize, initiate_validator_exit-HasSize) depth 9

  pub process_registry_updates-HasSize : Keeps (HasSize n) (process_registry_updates env)
  unfolding process_registry_updates
  process_registry_updates-HasSize =
      search (keeps_rules, update_eligibility-HasSize, update_validator-HasSize) depth 12

  pub penalize-HasSize :
      (epoch : Epoch) (adjusted total : Gwei) (i : ℕ)
      → Keeps (HasSize n) (penalize env epoch adjusted total i)
  unfolding penalize
  penalize-HasSize epoch adjusted total i = search (keeps_rules, decrease_balance-HasSize) depth 9

  process_slashings-HasSize : Keeps (HasSize n) (process_slashings env)
  unfolding process_slashings
  process_slashings-HasSize = search (keeps_rules, penalize-HasSize) depth 9

  update_effective_balance-HasSize :
      (downward upward : Gwei) (i : ℕ)
      → Keeps (HasSize n) (update_effective_balance env downward upward i)
  unfolding update_effective_balance
  update_effective_balance-HasSize downward upward i =
      search (keeps_rules, update_validator-HasSize) depth 9

  pub process_effective_balance_updates-HasSize :
      Keeps (HasSize n) (process_effective_balance_updates env)
  unfolding process_effective_balance_updates
  process_effective_balance_updates-HasSize =
      search (keeps_rules, update_effective_balance-HasSize) depth 9

  pub process_eth1_data_reset-HasSize : Keeps (HasSize n) (process_eth1_data_reset env)
  unfolding process_eth1_data_reset
  process_eth1_data_reset-HasSize = search (keeps_rules, Keeps-modify, clear_votes-HasSize) depth 9

  pub process_slashings_reset-HasSize : Keeps (HasSize n) (process_slashings_reset env)
  unfolding process_slashings_reset
  process_slashings_reset-HasSize = search (keeps_rules, clear_slashing-HasSize) depth 9

  pub process_randao_mixes_reset-HasSize : Keeps (HasSize n) (process_randao_mixes_reset env)
  unfolding process_randao_mixes_reset
  process_randao_mixes_reset-HasSize = search (keeps_rules, write_mix-HasSize) depth 9

  pub process_historical_roots_update-HasSize :
      Keeps (HasSize n) (process_historical_roots_update env)
  unfolding process_historical_roots_update
  process_historical_roots_update-HasSize =
      search (keeps_rules, Keeps-modify, push_historical_root-HasSize) depth 12

  participation_record_updates-HasSize : Keeps (HasSize n) process_participation_record_updates
  unfolding process_participation_record_updates
  participation_record_updates-HasSize = Keeps-modify _ (λ s h. ground arith)

  process_epoch-HasSize : Keeps (HasSize n) (process_epoch env)
  unfolding process_epoch
  process_epoch-HasSize =
      search
        (
          keeps_rules, process_justification-HasSize, process_rewards_and_penalties-HasSize,
          process_registry_updates-HasSize, process_slashings-HasSize,
          process_eth1_data_reset-HasSize, process_effective_balance_updates-HasSize,
          process_slashings_reset-HasSize, process_randao_mixes_reset-HasSize,
          process_historical_roots_update-HasSize, participation_record_updates-HasSize,
        )
        depth 14

-- However `process_epoch` ends, the state that it leaves has as many validators as the state before
-- it: an epoch neither adds a validator to the registry nor removes one.
pub process_epoch_keeps_size :
    (env : Env) (s : BeaconState) → length (process_epoch env s).1.validators ≡ length s.validators
process_epoch_keeps_size env s =
    ((process_epoch-HasSize env).at s (record { size_is = refl })).size_is
