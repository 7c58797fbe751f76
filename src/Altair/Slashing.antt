-- ===== src/Altair/Slashing.antt =====
-- ethereum-consensus/src/altair/helpers.rs: `slash_validator`.
pub mod Rewards
pub mod Shape
use ethereum_consensus.Prelude.{Option, ◌/◌, wrapping_add, wrapping_sub, wrapping_mul}
use ethereum_consensus.Types.{ValidatorIndex}
use ethereum_consensus.Types.Altair.{BeaconState, proposer_weight, weight_denominator}
use ethereum_consensus.Outcome.{index, div}
use ethereum_consensus.Action.{Action, StateAction, read, lift, ◌>>=◌, ◌>>◌}
use ethereum_consensus.Env.{Env}
use ethereum_consensus.Helpers.Epochs.{get_current_epoch}
use ethereum_consensus.Helpers.Committees.{get_beacon_proposer_index}
use ethereum_consensus.Helpers.Domains.{unwrap_or}
use ethereum_consensus.Helpers.Balances.{increase_balance, decrease_balance}
use ethereum_consensus.Helpers.Exits.{
  update_validator, slash_at, add_slashing, initiate_validator_exit,
}
use ethereum_consensus.Altair.Shared.{on_shared}

module _ (env : Env) where
  open env use {context}

  -- The last part. The two constants are integers, and so is their quotient.
  unfoldable pub pay_whistleblower : ValidatorIndex → Option ValidatorIndex → Action (Unit {0})
  pay_whistleblower slashed_index whistleblower = do
    proposer_index ← read (get_beacon_proposer_index env)
    let whistleblower_index = unwrap_or whistleblower proposer_index
    v ← read (λ state. index state.validators slashed_index)
    whistleblower_reward ← lift (div v.effective_balance context.whistleblower_reward_quotient)
    let proposer_reward_scaling_factor = proposer_weight / weight_denominator
    let proposer_reward = wrapping_mul whistleblower_reward proposer_reward_scaling_factor
    increase_balance proposer_index proposer_reward
    increase_balance whistleblower_index (wrapping_sub whistleblower_reward proposer_reward)

  -- All that it changes is in the part of the state that phase0 has too.
  unfoldable pub slash_part : ValidatorIndex → Option ValidatorIndex → Action (Unit {0})
  slash_part slashed_index whistleblower = do
    epoch ← read (get_current_epoch env)
    initiate_validator_exit env slashed_index
    update_validator slashed_index
        (slash_at (wrapping_add epoch context.epochs_per_slashings_vector))
    v ← read (λ state. index state.validators slashed_index)
    add_slashing env epoch v.effective_balance
    penalty ← lift (div v.effective_balance context.min_slashing_penalty_quotient_altair)
    decrease_balance slashed_index penalty
    pay_whistleblower slashed_index whistleblower

  unfoldable pub slash_validator :
      ValidatorIndex → Option ValidatorIndex → StateAction BeaconState (Unit {0})
  slash_validator slashed_index whistleblower = on_shared (slash_part slashed_index whistleblower)
