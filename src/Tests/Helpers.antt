-- ===== src/Tests/Helpers.antt =====
-- The theorems about the helpers at concrete inputs.
use mathlib.Core.List.{Permᴰ}
use ethereum_consensus.Prelude.{
  get_elem?, some, true, ◌⊎◌, ◌+◌, ◌≤◌, ℕ, ◌<◌, ◌≡◌, ◌↔◌, refl, arith, [], ◌∷◌, max, leb, u64_mod,
  if◌then◌else◌,
}
use ethereum_consensus.Types.{
  Epoch, AttestationData, IndexedAttestation, Validator, BeaconState, far_future_epoch,
}
use ethereum_consensus.Errors.{overflow}
use ethereum_consensus.Outcome.{ok, err}
use ethereum_consensus.Helpers.Shuffling.{compute_shuffled_index}
use ethereum_consensus.Helpers.Shuffling.Bijection.{
  compute_shuffled_index_total, compute_shuffled_index_injective, compute_shuffled_index_surjective,
}
use ethereum_consensus.Helpers.Balances.{get_total_balance}
use ethereum_consensus.Helpers.Balances.Total.{
  effective_balance_sum, get_total_balance-eq, get_total_balance-Perm,
}
use ethereum_consensus.Helpers.Attestations.{check_indices, get_indexed_attestation}
use ethereum_consensus.Helpers.Attestations.Indices.{
  IsIncreasing, check_indices_iff, get_indexed_attestation-check,
}
use ethereum_consensus.Helpers.Predicates.{is_active_validator, is_slashable_attestation_data}
use ethereum_consensus.Helpers.Committees.{get_beacon_proposer_index}
use ethereum_consensus.Helpers.Committees.Proposer.{get_beacon_proposer_index-active}
use ethereum_consensus.Helpers.Predicates.Slashable.{
  DoubleVote, Surrounds, is_slashable_attestation_data_iff,
}
use ethereum_consensus.Helpers.Epochs.{get_current_epoch, compute_activation_exit_epoch}
use ethereum_consensus.Helpers.Accessors.{get_validator_churn_limit}
use ethereum_consensus.Helpers.Exits.{latest_exit_epoch, exit_count, initiate_validator_exit}
use ethereum_consensus.Helpers.Exits.Churn.{initiate_validator_exit-churn}
use ethereum_consensus.Tests.Run.{run}
use ethereum_consensus.Tests.Samples.{
  env, state_at, attestation, attestation_data, checkpoint, digest-IsSha256,
}

compute_shuffled_index_total_example :
    (j : ℕ) × (compute_shuffled_index env (7 ∷ []) 5 3 ≡ ok j) × (j < 5)
compute_shuffled_index_total_example =
    compute_shuffled_index_total env digest-IsSha256 (7 ∷ []) 5 (omega arith) 3 (omega arith)

shuffled_3 : compute_shuffled_index env (7 ∷ []) 5 3 ≡ ok 3
unfolding run
shuffled_3 = refl

compute_shuffled_index_injective_example : ◌≡◌ {A = ℕ} 3 3
compute_shuffled_index_injective_example =
    compute_shuffled_index_injective env digest-IsSha256 (7 ∷ []) 5 (omega arith) 3 3 {j = 3}
      (omega arith) (omega arith) shuffled_3 shuffled_3

compute_shuffled_index_surjective_example :
    (i : ℕ) × (i < 5) × (compute_shuffled_index env (7 ∷ []) 5 i ≡ ok 3)
compute_shuffled_index_surjective_example =
    compute_shuffled_index_surjective env digest-IsSha256 (7 ∷ []) 5 (omega arith) 3 (omega arith)

check_indices_iff_example : (check_indices (1 ∷ 4 ∷ 9 ∷ []) ≡ ok tt) ↔ IsIncreasing (1 ∷ 4 ∷ 9 ∷ [])
check_indices_iff_example = check_indices_iff (1 ∷ 4 ∷ 9 ∷ [])

abbrev indexed : IndexedAttestation
indexed = record {
  attesting_indices = 1 ∷ [];
  attestation_data = attestation_data 1;
  signature = [];
}

get_indexed_attestation_returns :
    get_indexed_attestation env (attestation 1) (state_at 2) ≡ ok indexed
unfolding run
get_indexed_attestation_returns = refl

get_indexed_attestation-check_example :
    IsIncreasing indexed.attesting_indices × (check_indices indexed.attesting_indices ≡ ok tt)
get_indexed_attestation-check_example =
    get_indexed_attestation-check env (attestation 1) (state_at 2) get_indexed_attestation_returns
      (λ h. cc)

get_total_balance-eq_example : get_total_balance env (2 ∷ 0 ∷ []) (state_at 2) ≡ (
    if leb u64_mod (effective_balance_sum (state_at 2) (2 ∷ 0 ∷ []))
    then err overflow
    else ok (max (effective_balance_sum (state_at 2) (2 ∷ 0 ∷ [])) 4))
get_total_balance-eq_example =
    get_total_balance-eq env (state_at 2) (2 ∷ 0 ∷ []) (omega arith, (omega arith, tt))

get_total_balance-Perm_example :
    get_total_balance env (2 ∷ 0 ∷ []) (state_at 2)
    ≡ get_total_balance env (0 ∷ 2 ∷ []) (state_at 2)
get_total_balance-Perm_example =
    get_total_balance-Perm env (state_at 2) (Permᴰ.swap refl refl) (omega arith, (omega arith, tt))

-- A vote from epoch 0 to epoch 3 surrounds one from epoch 1 to epoch 2.
abbrev vote : ℕ → ℕ → AttestationData
vote source target = record (attestation_data 1) {
  source = checkpoint source;
  target = checkpoint target;
}

is_slashable_attestation_data_iff_example :
    (is_slashable_attestation_data (vote 0 3) (vote 1 2) ≡ true)
    ↔ (DoubleVote (vote 0 3) (vote 1 2) ⊎ Surrounds (vote 0 3) (vote 1 2))
is_slashable_attestation_data_iff_example = is_slashable_attestation_data_iff (vote 0 3) (vote 1 2)

abbrev after_exit : BeaconState
after_exit = (initiate_validator_exit env 3 (state_at 2)).1

exit_ok : (initiate_validator_exit env 3 (state_at 2)).0 ≡ ok tt
unfolding run
exit_ok = refl

epoch_is_0 : get_current_epoch env (state_at 2) ≡ ok 0
unfolding run
epoch_is_0 = refl

limit_is_1 : get_validator_churn_limit env (state_at 2) ≡ ok 1
unfolding run
limit_is_1 = refl

queue_is_short :
    latest_exit_epoch (state_at 2).validators (compute_activation_exit_epoch env 0) + 1
    < far_future_epoch
unfolding run
queue_is_short = omega arith

nobody_leaves : (e : Epoch) → e < far_future_epoch → exit_count (state_at 2).validators e ≤ 1
unfolding exit_count
nobody_leaves e near = ground arith

initiate_validator_exit-churn_example : exit_count after_exit.validators 5 ≤ 1
initiate_validator_exit-churn_example =
    initiate_validator_exit-churn env 3 (state_at 2) after_exit 1 0 epoch_is_0 limit_is_1
      (omega arith) queue_is_short nobody_leaves (λ i. (exit_ok i, after_exit)) 5 (omega arith)

proposer_is_0 : get_beacon_proposer_index env (state_at 2) ≡ ok 0
unfolding run
proposer_is_0 = refl

get_beacon_proposer_index-active_example :
    (epoch : Epoch) × (v : Validator) × (get_current_epoch env (state_at 2) ≡ ok epoch)
    × (get_elem? (state_at 2).validators 0 ≡ some v)
    × (is_active_validator v epoch ≡ true)
get_beacon_proposer_index-active_example =
    get_beacon_proposer_index-active env (state_at 2) 0 proposer_is_0
