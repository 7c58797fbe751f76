-- ===== src/Helpers/Exits.antt =====
-- ethereum-consensus/src/phase0/helpers.rs: `initiate_validator_exit` and `slash_validator`.
pub mod Churn
pub mod Shape
use ethereum_consensus.Prelude.{
  ℕ, not, List, Option, max, map, filter, length, set, leb, ◌==◌, if◌then◌else◌, [], ◌∷◌,
  wrapping_add, wrapping_sub, true,
}
use ethereum_consensus.Types.{Epoch, ValidatorIndex, Validator, BeaconState, far_future_epoch}
use ethereum_consensus.Outcome.{index, div, rem}
use ethereum_consensus.Action.{Action, read, modify, pure, gets, lift, ◌>>=◌, ◌>>◌}
use ethereum_consensus.Env.{Env}
use ethereum_consensus.Helpers.Epochs.{compute_activation_exit_epoch, get_current_epoch}
use ethereum_consensus.Helpers.Accessors.{get_validator_churn_limit}
use ethereum_consensus.Helpers.Committees.{get_beacon_proposer_index}
use ethereum_consensus.Helpers.Domains.{unwrap_or}
use ethereum_consensus.Helpers.Balances.{increase_balance, decrease_balance}

unfoldable pub with_validators : List Validator → BeaconState → BeaconState
with_validators validators state = record state { validators = validators }

unfoldable pub with_slashings : List ℕ → BeaconState → BeaconState
with_slashings slashings state = record state { slashings = slashings }

-- `state.validators[index] = validator`
unfoldable pub set_validator : ValidatorIndex → Validator → BeaconState → BeaconState
set_validator i v state = with_validators (set state.validators i v) state

-- A change of some fields of `state.validators[index]`, which panics out of bounds.
unfoldable pub update_validator : ValidatorIndex → (Validator → Validator) → Action (Unit {0})
update_validator i f = do
  v ← read (λ state. index state.validators i)
  modify (set_validator i (f v))

-- `exit_epochs.push(last)`, then `exit_epochs.iter().max()`
unfoldable pub max_epoch : List Epoch → Epoch → Epoch
max_epoch [] last = last
max_epoch (e ∷ es) last = max e (max_epoch es last)

-- The latest epoch of the exit queue, and the number of validators that leave in it.
unfoldable pub latest_exit_epoch : List Validator → Epoch → Epoch
latest_exit_epoch validators last =
    max_epoch
      (map (λ v. v.exit_epoch) (filter (λ v. not (v.exit_epoch == far_future_epoch)) validators))
      last

unfoldable pub exit_count : List Validator → Epoch → ℕ
exit_count validators epoch = length (filter (λ v. v.exit_epoch == epoch) validators)

unfoldable pub exit_at : Epoch → ℕ → Validator → Validator
exit_at epoch delay v = record v {
  exit_epoch = epoch;
  withdrawable_epoch = wrapping_add epoch delay;
}

unfoldable pub slash_at : Epoch → Validator → Validator
slash_at epoch v = record v { slashed = true; withdrawable_epoch = max v.withdrawable_epoch epoch }

module _ (env : Env) where
  open env use {context, generics}

  -- What follows the early return.
  unfoldable pub queue_exit : ValidatorIndex → Action (Unit {0})
  queue_exit i = do
    current_epoch ← read (get_current_epoch env)
    validators ← gets (λ state. state.validators)
    let latest = latest_exit_epoch validators (compute_activation_exit_epoch env current_epoch)
    churn_limit ← read (get_validator_churn_limit env)
    let is_full = leb churn_limit (exit_count validators latest)
    let exit_queue_epoch = if is_full then wrapping_add latest 1 else latest
    update_validator i (exit_at exit_queue_epoch context.min_validator_withdrawability_delay)

  unfoldable pub initiate_validator_exit : ValidatorIndex → Action (Unit {0})
  initiate_validator_exit i = do
    v ← read (λ state. index state.validators i)
    if not (v.exit_epoch == far_future_epoch) then pure tt else queue_exit i

  -- `state.slashings[epoch as usize % EPOCHS_PER_SLASHINGS_VECTOR] += balance`
  unfoldable pub add_slashing : Epoch → ℕ → Action (Unit {0})
  add_slashing epoch balance = do
    slot ← lift (rem epoch generics.epochs_per_slashings_vector)
    old ← read (λ state. index state.slashings slot)
    modify (λ state. with_slashings (set state.slashings slot (wrapping_add old balance)) state)

  unfoldable pub pay_whistleblower : ValidatorIndex → Option ValidatorIndex → Action (Unit {0})
  pay_whistleblower slashed_index whistleblower = do
    proposer_index ← read (get_beacon_proposer_index env)
    let whistleblower_index = unwrap_or whistleblower proposer_index
    v ← read (λ state. index state.validators slashed_index)
    whistleblower_reward ← lift (div v.effective_balance context.whistleblower_reward_quotient)
    proposer_reward ← lift (div whistleblower_reward context.proposer_reward_quotient)
    increase_balance proposer_index proposer_reward
    increase_balance whistleblower_index (wrapping_sub whistleblower_reward proposer_reward)

  unfoldable pub slash_validator : ValidatorIndex → Option ValidatorIndex → Action (Unit {0})
  slash_validator slashed_index whistleblower = do
    epoch ← read (get_current_epoch env)
    initiate_validator_exit slashed_index
    update_validator slashed_index
        (slash_at (wrapping_add epoch context.epochs_per_slashings_vector))
    v ← read (λ state. index state.validators slashed_index)
    add_slashing epoch v.effective_balance
    penalty ← lift (div v.effective_balance context.min_slashing_penalty_quotient)
    decrease_balance slashed_index penalty
    pay_whistleblower slashed_index whistleblower
