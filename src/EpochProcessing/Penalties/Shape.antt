-- ===== src/EpochProcessing/Penalties/Shape.antt =====
-- The rewards, the penalties and the effective balances keep the shape of the state.
use ethereum_consensus.Prelude.{ℕ}
use ethereum_consensus.Types.{Epoch, Gwei}
use ethereum_consensus.Action.Keeps.{Keeps, keeps_rules}
use ethereum_consensus.Env.{Env}
use ethereum_consensus.Shape.{Shape, HasShape}
use ethereum_consensus.Helpers.Balances.Shape.{increase_balance-HasShape, decrease_balance-HasShape}
use ethereum_consensus.Helpers.Exits.Shape.{update_validator-HasShape}
use ethereum_consensus.EpochProcessing.Rewards.{Deltas}
use ethereum_consensus.EpochProcessing.Penalties.{
  apply_deltas, process_rewards_and_penalties, penalize, process_slashings,
  update_effective_balance, process_effective_balance_updates,
}

module _ {k : Shape} where
  pub apply_deltas-HasShape : (d : Deltas) (i : ℕ) → Keeps (HasShape k) (apply_deltas d i)
  unfolding apply_deltas
  apply_deltas-HasShape d i =
      search (keeps_rules, increase_balance-HasShape, decrease_balance-HasShape) depth 9

module _ (env : Env) {k : Shape} where
  pub process_rewards_and_penalties-HasShape :
      Keeps (HasShape k) (process_rewards_and_penalties env)
  unfolding process_rewards_and_penalties
  process_rewards_and_penalties-HasShape = search (keeps_rules, apply_deltas-HasShape) depth 9

  pub penalize-HasShape :
      (epoch : Epoch) (adjusted total : Gwei) (i : ℕ)
      → Keeps (HasShape k) (penalize env epoch adjusted total i)
  unfolding penalize
  penalize-HasShape epoch adjusted total i = search (keeps_rules, decrease_balance-HasShape) depth 9

  pub process_slashings-HasShape : Keeps (HasShape k) (process_slashings env)
  unfolding process_slashings
  process_slashings-HasShape = search (keeps_rules, penalize-HasShape) depth 9

  update_effective_balance-HasShape :
      (downward upward : Gwei) (i : ℕ)
      → Keeps (HasShape k) (update_effective_balance env downward upward i)
  unfolding update_effective_balance
  update_effective_balance-HasShape downward upward i =
      search (keeps_rules, update_validator-HasShape) depth 9

  pub process_effective_balance_updates-HasShape :
      Keeps (HasShape k) (process_effective_balance_updates env)
  unfolding process_effective_balance_updates
  process_effective_balance_updates-HasShape =
      search (keeps_rules, update_effective_balance-HasShape) depth 9
