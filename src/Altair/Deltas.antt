-- ===== src/Altair/Deltas.antt =====
-- ethereum-consensus/src/altair/helpers.rs and epoch_processing.rs: the base reward, and the
-- rewards and penalties of an epoch.
use ethereum_consensus.Prelude.{
  ℕ, ◌/◌, Bool, not, List, [], ◌∷◌, length, replicate, ◌==◌, if◌then◌else◌, wrapping_mul,
}
use ethereum_consensus.Prelude.Sets.{contains}
use ethereum_consensus.Types.{Gwei, ValidatorIndex}
use ethereum_consensus.Types.Altair.{
  BeaconState, participation_flag_weights, weight_denominator, timely_head_flag_index,
  timely_target_flag_index,
}
use ethereum_consensus.Outcome.{Outcome, ok, index, div, ◌>>=◌}
use ethereum_consensus.Env.{Env}
use ethereum_consensus.EpochProcessing.Rewards.{Deltas, add_at}
use ethereum_consensus.Altair.Spec.{
  get_previous_epoch, get_total_balance, get_total_active_balance, get_eligible_validator_indices,
  is_in_inactivity_leak,
}
use ethereum_consensus.Altair.Participation.{get_unslashed_participating_indices}

unfoldable pub no_deltas : ℕ → Deltas
no_deltas n = record { rewards = replicate n 0; penalties = replicate n 0 }

module _ (env : Env) where
  open env use {context, externals}

  unfoldable pub get_base_reward_per_increment : BeaconState → Outcome Gwei
  get_base_reward_per_increment state = do
    total_balance ← get_total_active_balance env state
    div (wrapping_mul context.effective_balance_increment context.base_reward_factor)
        (externals.integer_sqrt total_balance)

  unfoldable pub get_base_reward : ValidatorIndex → BeaconState → Outcome Gwei
  get_base_reward i state = do
    v ← index state.validators i
    increments ← div v.effective_balance context.effective_balance_increment
    per_increment ← get_base_reward_per_increment state
    ok (wrapping_mul increments per_increment)

  -- The body of the loop over the eligible validators, for a flag of a given weight.
  unfoldable pub flag_step :
      (flag_index weight : ℕ)
      → List ValidatorIndex
      → (participating_increments active_increments : ℕ) → Bool
      → ValidatorIndex
      → BeaconState
      → Deltas
      → Outcome Deltas
  flag_step flag_index weight indices participating_increments active_increments not_leaking i state
        deltas =
      do
        base_reward ← get_base_reward i state
        let weighted = wrapping_mul base_reward weight
        if contains i indices
            then (if not_leaking
                then (do
                  reward ←
                      div (wrapping_mul weighted participating_increments)
                        (wrapping_mul active_increments weight_denominator)
                  rewards ← add_at deltas.rewards i reward
                  ok (record deltas { rewards = rewards }))
                else ok deltas)
            else (if not (flag_index == timely_head_flag_index)
                then (do
                  penalties ← add_at deltas.penalties i (weighted / weight_denominator)
                  ok (record deltas { penalties = penalties }))
                else ok deltas)

  -- A loop over the eligible validators.
  unfoldable pub delta_loop :
      (ValidatorIndex → Deltas → Outcome Deltas) → List ValidatorIndex → Deltas → Outcome Deltas
  delta_loop step [] deltas = ok deltas
  delta_loop step (i ∷ indices) deltas = do deltas' ← step i deltas; delta_loop step indices deltas'

  unfoldable pub get_flag_index_deltas : ℕ → BeaconState → Outcome Deltas
  get_flag_index_deltas flag_index state = do
    previous_epoch ← get_previous_epoch env state
    indices ← get_unslashed_participating_indices env flag_index previous_epoch state
    weight ← index participation_flag_weights flag_index
    participating_balance ← get_total_balance env indices state
    participating_increments ← div participating_balance context.effective_balance_increment
    active_balance ← get_total_active_balance env state
    active_increments ← div active_balance context.effective_balance_increment
    is_leaking ← is_in_inactivity_leak env state
    eligible ← get_eligible_validator_indices env state
    delta_loop
        (λ i.
          flag_step flag_index weight indices participating_increments active_increments
            (not is_leaking) i state)
        eligible (no_deltas (length state.validators))

  -- The body of the loop over the eligible validators.
  unfoldable pub inactivity_step :
      List ValidatorIndex → BeaconState → ValidatorIndex → Deltas → Outcome Deltas
  inactivity_step indices state i deltas =
      if not (contains i indices)
      then (do
        v ← index state.validators i
        score ← index state.inactivity_scores i
        let denominator =
            wrapping_mul context.inactivity_score_bias context.inactivity_penalty_quotient_altair
        penalty ← div (wrapping_mul v.effective_balance score) denominator
        penalties ← add_at deltas.penalties i penalty
        ok (record deltas { penalties = penalties }))
      else ok deltas

  unfoldable pub get_inactivity_penalty_deltas : BeaconState → Outcome Deltas
  get_inactivity_penalty_deltas state = do
    previous_epoch ← get_previous_epoch env state
    indices ← get_unslashed_participating_indices env timely_target_flag_index previous_epoch state
    eligible ← get_eligible_validator_indices env state
    delta_loop (inactivity_step indices state) eligible (no_deltas (length state.validators))
