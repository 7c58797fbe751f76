-- ===== src/Altair/EpochProcessing.antt =====
-- ethereum-consensus/src/altair/epoch_processing.rs. The steps that altair takes from phase0 stand
-- in ethereum-consensus/src/altair/spec/mod.rs.
pub mod Shape
use ethereum_consensus.Prelude.{
  ℕ, zero, suc, ◌+◌, ◌-◌, Bool, not, List, [], ◌∷◌, length, replicate, set, min, leb, ◌==◌,
  if◌then◌else◌, wrapping_add, wrapping_mul,
}
use ethereum_consensus.Prelude.Sets.{contains}
use ethereum_consensus.Types.{Gwei, ValidatorIndex, genesis_epoch}
use ethereum_consensus.Types.Altair.{
  BeaconState, SyncCommittee, timely_target_flag_index, participation_flag_weights,
}
use ethereum_consensus.Outcome
use ethereum_consensus.Outcome.{Outcome, ok, index, rem}
use ethereum_consensus.Action.{
  StateAction, read, gets, lift, modify, pure, for_each, for_range, ◌>>=◌, ◌>>◌,
}
use ethereum_consensus.Env.{Env}
use ethereum_consensus.EpochProcessing.Justification as Justification
use ethereum_consensus.EpochProcessing.Registry as Registry
use ethereum_consensus.EpochProcessing.Penalties as Penalties
use ethereum_consensus.EpochProcessing.Penalties.{apply_deltas, wrapping_sum, penalize}
use ethereum_consensus.EpochProcessing.Resets as Resets
use ethereum_consensus.EpochProcessing.Rewards.{Deltas}
use ethereum_consensus.Altair.Shared.{on_shared}
use ethereum_consensus.Altair.Spec.{
  get_current_epoch, get_previous_epoch, get_total_balance, get_total_active_balance,
  get_eligible_validator_indices, is_in_inactivity_leak,
}
use ethereum_consensus.Altair.Participation.{get_unslashed_participating_indices}
use ethereum_consensus.Altair.Deltas.{get_flag_index_deltas, get_inactivity_penalty_deltas}
use ethereum_consensus.Altair.SyncCommittee.{get_next_sync_committee}

-- `state.inactivity_scores[index] = score`
unfoldable pub set_score : ValidatorIndex → ℕ → BeaconState → BeaconState
set_score i score state = record state { inactivity_scores = set state.inactivity_scores i score }

unfoldable pub rotate_participation : BeaconState → BeaconState
rotate_participation state = record state {
  previous_epoch_participation = state.current_epoch_participation;
  current_epoch_participation = replicate (length state.validators) 0;
}

unfoldable pub process_participation_flag_updates : StateAction BeaconState (Unit {0})
process_participation_flag_updates = modify rotate_participation

unfoldable pub rotate_committees : SyncCommittee → BeaconState → BeaconState
rotate_committees next state = record state {
  current_sync_committee = state.next_sync_committee;
  next_sync_committee = next;
}

module _ (env : Env) where
  open env use {context}

  unfoldable pub weigh_justification_and_finalization :
      (total_active_balance previous_epoch_target_balance current_epoch_target_balance : Gwei)
      → StateAction BeaconState (Unit {0})
  weigh_justification_and_finalization total previous_target current_target =
      on_shared (
        Justification.weigh_justification_and_finalization env total previous_target current_target)

  unfoldable pub process_justification_and_finalization : StateAction BeaconState (Unit {0})
  process_justification_and_finalization = do
    current_epoch ← read (get_current_epoch env)
    if leb current_epoch (genesis_epoch + 1) then pure tt else do
      previous_epoch ← read (get_previous_epoch env)
      previous_indices ←
          read (get_unslashed_participating_indices env timely_target_flag_index previous_epoch)
      current_indices ←
          read (get_unslashed_participating_indices env timely_target_flag_index current_epoch)
      total_active_balance ← read (get_total_active_balance env)
      previous_target_balance ← read (get_total_balance env previous_indices)
      current_target_balance ← read (get_total_balance env current_indices)
      weigh_justification_and_finalization total_active_balance previous_target_balance
          current_target_balance

  -- The score of an eligible validator after the two updates in the loop's body.
  unfoldable pub updated_score : (participates not_leaking : Bool) → ℕ → ℕ
  updated_score participates not_leaking score =
      let moved =
        if participates
        then score - min 1 score
        else wrapping_add score context.inactivity_score_bias in
      if not_leaking then moved - min context.inactivity_score_recovery_rate moved else moved

  unfoldable pub update_score :
      List ValidatorIndex → Bool → ValidatorIndex → StateAction BeaconState (Unit {0})
  update_score indices not_leaking i = do
    score ← read (λ state. index state.inactivity_scores i)
    modify (set_score i (updated_score (contains i indices) not_leaking score))

  unfoldable pub process_inactivity_updates : StateAction BeaconState (Unit {0})
  process_inactivity_updates = do
    current_epoch ← read (get_current_epoch env)
    if current_epoch == genesis_epoch then pure tt else do
      eligible ← read (get_eligible_validator_indices env)
      previous_epoch ← read (get_previous_epoch env)
      indices ←
          read (get_unslashed_participating_indices env timely_target_flag_index previous_epoch)
      is_leaking ← read (is_in_inactivity_leak env)
      for_each eligible (update_score indices (not is_leaking))

  -- The deltas of the flags from `flag_index` on, of which there are `n`, then those of inactivity.
  unfoldable pub deltas_from : ℕ → ℕ → BeaconState → Outcome (List Deltas)
  deltas_from zero flag_index state =
      Outcome.◌>>=◌ (get_inactivity_penalty_deltas env state) λ deltas. ok (deltas ∷ [])
  deltas_from (suc n) flag_index state =
      Outcome.◌>>=◌ (get_flag_index_deltas env flag_index state)
        λ deltas. Outcome.◌>>=◌ (deltas_from n (suc flag_index) state) λ rest. ok (deltas ∷ rest)

  unfoldable pub process_rewards_and_penalties : StateAction BeaconState (Unit {0})
  process_rewards_and_penalties = do
    current_epoch ← read (get_current_epoch env)
    if current_epoch == genesis_epoch then pure tt else do
      all_deltas ← read (deltas_from (length participation_flag_weights) 0)
      for_each all_deltas λ deltas. do
        n ← gets (λ state. length state.validators)
        for_range n 0 (λ i. on_shared (apply_deltas deltas i))

  unfoldable pub process_registry_updates : StateAction BeaconState (Unit {0})
  process_registry_updates = on_shared (Registry.process_registry_updates env)

  unfoldable pub process_slashings : StateAction BeaconState (Unit {0})
  process_slashings = do
    epoch ← read (get_current_epoch env)
    total_balance ← read (get_total_active_balance env)
    slashings ← gets (λ state. wrapping_sum state.slashings)
    let multiplied = wrapping_mul slashings context.proportional_slashing_multiplier_altair
    n ← gets (λ state. length state.validators)
    for_range n 0
        (λ i. on_shared (penalize env epoch (min multiplied total_balance) total_balance i))

  unfoldable pub process_eth1_data_reset : StateAction BeaconState (Unit {0})
  process_eth1_data_reset = on_shared (Resets.process_eth1_data_reset env)

  unfoldable pub process_effective_balance_updates : StateAction BeaconState (Unit {0})
  process_effective_balance_updates = on_shared (Penalties.process_effective_balance_updates env)

  unfoldable pub process_slashings_reset : StateAction BeaconState (Unit {0})
  process_slashings_reset = on_shared (Resets.process_slashings_reset env)

  unfoldable pub process_randao_mixes_reset : StateAction BeaconState (Unit {0})
  process_randao_mixes_reset = on_shared (Resets.process_randao_mixes_reset env)

  unfoldable pub process_historical_roots_update : StateAction BeaconState (Unit {0})
  process_historical_roots_update = on_shared (Resets.process_historical_roots_update env)

  unfoldable pub process_sync_committee_updates : StateAction BeaconState (Unit {0})
  process_sync_committee_updates = do
    current_epoch ← read (get_current_epoch env)
    let next_epoch = wrapping_add current_epoch 1
    phase ← lift (rem next_epoch context.epochs_per_sync_committee_period)
    if phase == 0
        then (do next ← read (get_next_sync_committee env); modify (rotate_committees next))
        else pure tt

  unfoldable pub process_epoch : StateAction BeaconState (Unit {0})
  process_epoch = do
    process_justification_and_finalization
    process_inactivity_updates
    process_rewards_and_penalties
    process_registry_updates
    process_slashings
    process_eth1_data_reset
    process_effective_balance_updates
    process_slashings_reset
    process_randao_mixes_reset
    process_historical_roots_update
    process_participation_flag_updates
    process_sync_committee_updates
