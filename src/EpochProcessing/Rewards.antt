-- ===== src/EpochProcessing/Rewards.antt =====
-- ethereum-consensus/src/phase0/epoch_processing.rs: the rewards and penalties for attestations.
-- A vector of deltas has an entry for each validator, and a write out of bounds panics.
use ethereum_consensus.Prelude.{
  ℕ, zero, suc, ◌/◌, Bool, List, [], ◌∷◌, length, replicate, set, ltb, if◌then◌else◌, wrapping_add,
  wrapping_sub, wrapping_mul,
}
use ethereum_consensus.Prelude.Sets.{contains}
use ethereum_consensus.Types.{
  Epoch, Gwei, ValidatorIndex, PendingAttestation, BeaconState, base_rewards_per_epoch,
}
use ethereum_consensus.Outcome.{Outcome, ok, fault, panic, index, div, ◌>>=◌}
use ethereum_consensus.Env.{Env}
use ethereum_consensus.Helpers.Epochs.{get_previous_epoch}
use ethereum_consensus.Helpers.Balances.{
  get_total_balance, get_total_active_balance, get_eligible_validator_indices,
}
use ethereum_consensus.Helpers.Attestations.{get_attesting_indices}
use ethereum_consensus.EpochProcessing.Matching.{
  get_matching_source_attestations, get_matching_target_attestations,
  get_matching_head_attestations, get_unslashed_attesting_indices,
}

-- The rewards and the penalties, an entry for each validator.
pub record Deltas : Type 0 where
  pub rewards : List Gwei
  pub penalties : List Gwei

-- `deltas[i] += amount`
unfoldable pub add_at : List Gwei → ℕ → Gwei → Outcome (List Gwei)
add_at deltas i amount = do old ← index deltas i; ok (set deltas i (wrapping_add old amount))

-- The first of the attestations with the least inclusion delay, among `best` and the rest.
unfoldable pub least_delay : PendingAttestation → List PendingAttestation → PendingAttestation
least_delay best [] = best
least_delay best (a ∷ rest) =
    least_delay (if ltb a.inclusion_delay best.inclusion_delay then a else best) rest

-- `min_by(...).expect(...)`
unfoldable pub min_by_delay : List PendingAttestation → Outcome PendingAttestation
min_by_delay [] = fault panic
min_by_delay (a ∷ rest) = ok (least_delay a rest)

-- `out[i] = a[i] + b[i] + c[i] + d[i]` for the first `n` entries
unfoldable pub add_four : ℕ → ℕ → (a b c d : List Gwei) → Outcome (List Gwei)
add_four zero i a b c d = ok []
add_four (suc n) i a b c d = do
  w ← index a i
  x ← index b i
  y ← index c i
  z ← index d i
  rest ← add_four n (suc i) a b c d
  ok (wrapping_add (wrapping_add (wrapping_add w x) y) z ∷ rest)

module _ (env : Env) where
  open env use {context, externals}

  unfoldable pub get_base_reward : ValidatorIndex → BeaconState → Outcome Gwei
  get_base_reward i state = do
    total_balance ← get_total_active_balance env state
    v ← index state.validators i
    let scaled = wrapping_mul v.effective_balance context.base_reward_factor
    share ← div scaled (externals.integer_sqrt total_balance)
    ok (share / base_rewards_per_epoch)

  unfoldable pub get_proposer_reward : ValidatorIndex → BeaconState → Outcome Gwei
  get_proposer_reward i state = do
    base_reward ← get_base_reward i state
    div base_reward context.proposer_reward_quotient

  unfoldable pub get_finality_delay : BeaconState → Outcome Epoch
  get_finality_delay state = do
    previous_epoch ← get_previous_epoch env state
    ok (wrapping_sub previous_epoch state.finalized_checkpoint.epoch)

  unfoldable pub is_in_inactivity_leak : BeaconState → Outcome Bool
  is_in_inactivity_leak state = do
    delay ← get_finality_delay state
    ok (ltb context.min_epochs_to_inactivity_penalty delay)

  -- The reward of a validator that attested.
  unfoldable pub attester_reward : ValidatorIndex → Gwei → Gwei → BeaconState → Outcome Gwei
  attester_reward i attesting_balance total_balance state = do
    base_reward ← get_base_reward i state
    attesting_increments ← div attesting_balance context.effective_balance_increment
    total_increments ← div total_balance context.effective_balance_increment
    div (wrapping_mul base_reward attesting_increments) total_increments

  -- The body of the loop over the eligible validators.
  unfoldable pub component_step :
      List ValidatorIndex → Gwei → Gwei → ValidatorIndex → BeaconState → Deltas → Outcome Deltas
  component_step attesting attesting_balance total_balance i state deltas =
      if contains i attesting
      then (do
        leak ← is_in_inactivity_leak state
        reward ←
            if leak
            then get_base_reward i state
            else attester_reward i attesting_balance total_balance state
        rewards ← add_at deltas.rewards i reward
        ok (record deltas { rewards = rewards }))
      else (do
        base_reward ← get_base_reward i state
        penalties ← add_at deltas.penalties i base_reward
        ok (record deltas { penalties = penalties }))

  unfoldable pub component_loop :
      List ValidatorIndex
      → Gwei
      → Gwei
      → List ValidatorIndex
      → BeaconState
      → Deltas
      → Outcome Deltas
  component_loop attesting attesting_balance total_balance [] state deltas = ok deltas
  component_loop attesting attesting_balance total_balance (i ∷ eligible) state deltas = do
    deltas' ← component_step attesting attesting_balance total_balance i state deltas
    component_loop attesting attesting_balance total_balance eligible state deltas'

  unfoldable pub get_attestation_component_deltas :
      List PendingAttestation → BeaconState → Outcome Deltas
  get_attestation_component_deltas attestations state = do
    let zeros = replicate (length state.validators) 0
    total_balance ← get_total_active_balance env state
    attesting ← get_unslashed_attesting_indices env attestations state
    attesting_balance ← get_total_balance env attesting state
    eligible ← get_eligible_validator_indices env state
    component_loop attesting attesting_balance total_balance eligible state
        (record { rewards = zeros; penalties = zeros })

  unfoldable pub get_source_deltas : BeaconState → Outcome Deltas
  get_source_deltas state = do
    previous_epoch ← get_previous_epoch env state
    attestations ← get_matching_source_attestations env previous_epoch state
    get_attestation_component_deltas attestations state

  unfoldable pub get_target_deltas : BeaconState → Outcome Deltas
  get_target_deltas state = do
    previous_epoch ← get_previous_epoch env state
    attestations ← get_matching_target_attestations env previous_epoch state
    get_attestation_component_deltas attestations state

  unfoldable pub get_head_deltas : BeaconState → Outcome Deltas
  get_head_deltas state = do
    previous_epoch ← get_previous_epoch env state
    attestations ← get_matching_head_attestations env previous_epoch state
    get_attestation_component_deltas attestations state

  -- The attestations in which a validator took part.
  unfoldable pub attestations_of :
      ValidatorIndex → List PendingAttestation → BeaconState → Outcome (List PendingAttestation)
  attestations_of i [] state = ok []
  attestations_of i (a ∷ attestations) state = do
    indices ← get_attesting_indices env a.attestation_data a.aggregation_bits state
    rest ← attestations_of i attestations state
    ok (if contains i indices then a ∷ rest else rest)

  unfoldable pub inclusion_step :
      List PendingAttestation → ValidatorIndex → BeaconState → List Gwei → Outcome (List Gwei)
  inclusion_step source i state rewards = do
    attestations ← attestations_of i source state
    a ← min_by_delay attestations
    proposer_reward ← get_proposer_reward i state
    rewards' ← add_at rewards a.proposer_index proposer_reward
    base_reward ← get_base_reward i state
    attester_share ← div (wrapping_sub base_reward proposer_reward) a.inclusion_delay
    add_at rewards' i attester_share

  unfoldable pub inclusion_loop :
      List PendingAttestation → List ValidatorIndex → BeaconState → List Gwei → Outcome (List Gwei)
  inclusion_loop source [] state rewards = ok rewards
  inclusion_loop source (i ∷ indices) state rewards = do
    rewards' ← inclusion_step source i state rewards
    inclusion_loop source indices state rewards'

  unfoldable pub get_inclusion_delay_deltas : BeaconState → Outcome Deltas
  get_inclusion_delay_deltas state = do
    previous_epoch ← get_previous_epoch env state
    let zeros = replicate (length state.validators) 0
    source ← get_matching_source_attestations env previous_epoch state
    indices ← get_unslashed_attesting_indices env source state
    rewards ← inclusion_loop source indices state zeros
    ok (record { rewards = rewards; penalties = zeros })

  -- The penalty on top of the cancelled rewards, for a validator that missed the target.
  unfoldable pub add_leak_penalty :
      List ValidatorIndex → ValidatorIndex → BeaconState → List Gwei → Outcome (List Gwei)
  add_leak_penalty target i state penalties = if contains i target then ok penalties else do
    v ← index state.validators i
    delay ← get_finality_delay state
    let scaled = wrapping_mul v.effective_balance delay
    penalty ← div scaled context.inactivity_penalty_quotient
    add_at penalties i penalty

  unfoldable pub inactivity_loop :
      List ValidatorIndex → List ValidatorIndex → BeaconState → List Gwei → Outcome (List Gwei)
  inactivity_loop target [] state penalties = ok penalties
  inactivity_loop target (i ∷ eligible) state penalties = do
    base_reward ← get_base_reward i state
    proposer_reward ← get_proposer_reward i state
    let full = wrapping_mul base_rewards_per_epoch base_reward
    penalties' ← add_at penalties i (wrapping_sub full proposer_reward)
    penalties'' ← add_leak_penalty target i state penalties'
    inactivity_loop target eligible state penalties''

  unfoldable pub get_inactivity_penalty_deltas : BeaconState → Outcome Deltas
  get_inactivity_penalty_deltas state = do
    previous_epoch ← get_previous_epoch env state
    let zeros = replicate (length state.validators) 0
    leak ← is_in_inactivity_leak state
    if leak
        then (do
          attestations ← get_matching_target_attestations env previous_epoch state
          target ← get_unslashed_attesting_indices env attestations state
          eligible ← get_eligible_validator_indices env state
          penalties ← inactivity_loop target eligible state zeros
          ok (record { rewards = zeros; penalties = penalties }))
        else ok (record { rewards = zeros; penalties = zeros })

  unfoldable pub get_attestation_deltas : BeaconState → Outcome Deltas
  get_attestation_deltas state = do
    source ← get_source_deltas state
    target ← get_target_deltas state
    head ← get_head_deltas state
    inclusion ← get_inclusion_delay_deltas state
    inactivity ← get_inactivity_penalty_deltas state
    let n = length state.validators
    rewards ← add_four n 0 source.rewards target.rewards head.rewards inclusion.rewards
    penalties ← add_four n 0 source.penalties target.penalties head.penalties inactivity.penalties
    ok (record { rewards = rewards; penalties = penalties })
