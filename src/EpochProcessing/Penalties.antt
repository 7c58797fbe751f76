-- ===== src/EpochProcessing/Penalties.antt =====
-- ethereum-consensus/src/phase0/epoch_processing.rs: the epoch's rewards and penalties, the penalty
-- of slashed validators, and the update of the effective balances.
pub mod Shape
use ethereum_consensus.Prelude.{
  ℕ, zero, suc, ◌-◌, ◌/◌, ◌%◌, Bool, not, ◌&&◌, ◌||◌, List, length, sum, min, ltb, ◌==◌,
  if◌then◌else◌, u64_mod, wrapping_add, wrapping_mul,
}
use ethereum_consensus.Types.{Epoch, Gwei, Validator, genesis_epoch}
use ethereum_consensus.Outcome
use ethereum_consensus.Outcome.{Outcome, ok, index, div, rem}
use ethereum_consensus.Action.{Action, read, gets, lift, pure, for_range, ◌>>=◌, ◌>>◌}
use ethereum_consensus.Env.{Env}
use ethereum_consensus.Helpers.Epochs.{get_current_epoch}
use ethereum_consensus.Helpers.Balances.{
  increase_balance, decrease_balance, get_total_active_balance,
}
use ethereum_consensus.Helpers.Exits.{update_validator}
use ethereum_consensus.EpochProcessing.Rewards.{Deltas, get_attestation_deltas}

-- The body of the loop over the validators.
unfoldable pub apply_deltas : Deltas → ℕ → Action (Unit {0})
apply_deltas deltas i = do
  reward ← lift (index deltas.rewards i)
  increase_balance i reward
  penalty ← lift (index deltas.penalties i)
  decrease_balance i penalty

unfoldable pub with_effective_balance : Gwei → Validator → Validator
with_effective_balance balance v = record v { effective_balance = balance }

-- `iter().sum::<Gwei>()`
unfoldable pub wrapping_sum : List Gwei → Gwei
wrapping_sum xs = sum xs % u64_mod

module _ (env : Env) where
  open env use {context}

  unfoldable pub process_rewards_and_penalties : Action (Unit {0})
  process_rewards_and_penalties = do
    current_epoch ← read (get_current_epoch env)
    if not (current_epoch == genesis_epoch)
        then (do
          deltas ← read (get_attestation_deltas env)
          n ← gets (λ state. length state.validators)
          for_range n 0 (apply_deltas deltas))
        else pure tt

  unfoldable pub slashing_penalty : Gwei → Gwei → Gwei → Outcome Gwei
  slashing_penalty effective_balance adjusted_total total_balance =
      let increment = context.effective_balance_increment in
      Outcome.◌>>=◌ (div effective_balance increment) λ increments.
        Outcome.◌>>=◌ (div (wrapping_mul increments adjusted_total) total_balance)
          λ share. ok (wrapping_mul share increment)

  -- The body of the loop over the validators.
  unfoldable pub penalize : Epoch → Gwei → Gwei → ℕ → Action (Unit {0})
  penalize epoch adjusted_total total_balance i = do
    v ← read (λ state. index state.validators i)
    let halfway = wrapping_add epoch (context.epochs_per_slashings_vector / 2)
    if v.slashed && halfway == v.withdrawable_epoch
        then (do
          penalty ← lift (slashing_penalty v.effective_balance adjusted_total total_balance)
          decrease_balance i penalty)
        else pure tt

  unfoldable pub process_slashings : Action (Unit {0})
  process_slashings = do
    epoch ← read (get_current_epoch env)
    total_balance ← read (get_total_active_balance env)
    slashings ← gets (λ state. wrapping_sum state.slashings)
    let multiplied = wrapping_mul slashings context.proportional_slashing_multiplier
    n ← gets (λ state. length state.validators)
    for_range n 0 (penalize epoch (min multiplied total_balance) total_balance)

  -- Whether a balance has left the band around the effective balance.
  unfoldable pub leaves_band : Gwei → Gwei → Gwei → Gwei → Bool
  leaves_band downward upward balance effective_balance =
      ltb (wrapping_add balance downward) effective_balance
      || ltb (wrapping_add effective_balance upward) balance

  -- `min(balance - balance % increment, max_effective_balance)`
  unfoldable pub rounded_balance : Gwei → Outcome Gwei
  rounded_balance balance =
      Outcome.◌>>=◌ (rem balance context.effective_balance_increment)
        λ remainder. ok (min (balance - remainder) context.max_effective_balance)

  -- The body of the loop over the validators.
  unfoldable pub update_effective_balance : Gwei → Gwei → ℕ → Action (Unit {0})
  update_effective_balance downward upward i = do
    v ← read (λ state. index state.validators i)
    balance ← read (λ state. index state.balances i)
    if leaves_band downward upward balance v.effective_balance
        then (do
          effective_balance ← lift (rounded_balance balance)
          update_validator i (with_effective_balance effective_balance))
        else pure tt

  unfoldable pub process_effective_balance_updates : Action (Unit {0})
  process_effective_balance_updates = do
    increment ← lift (div context.effective_balance_increment context.hysteresis_quotient)
    let downward = wrapping_mul increment context.hysteresis_downward_multiplier
    let upward = wrapping_mul increment context.hysteresis_upward_multiplier
    n ← gets (λ state. length state.validators)
    for_range n 0 (update_effective_balance downward upward)
