-- ===== src/Helpers/Accessors/Returns.antt =====
-- Where the accessors of the state return a value.
use ethereum_consensus.Prelude.{
  ℕ, ◌/◌, ◌%◌, ◌≡◌, ◌<◌, refl, ◌++◌, length, max, get_elem?-some, wrapping_add, wrapping_sub,
}
use native.Mathlib.Nat.{mod-lt}
use ethereum_consensus.Prelude.Bytes.{Bytes, to_le_bytes}
use ethereum_consensus.Types.{Epoch, BeaconState, DomainType, as_bytes}
use ethereum_consensus.Outcome.{ok, rem-eq, div-eq}
use ethereum_consensus.Env.{Env}
use ethereum_consensus.Helpers.Epochs.{compute_epoch_at_slot, get_current_epoch}
use ethereum_consensus.Helpers.Accessors.{
  get_active_validator_indices, get_randao_mix, get_validator_churn_limit, get_seed,
}

pub get_current_epoch-returns :
    (env : Env) (s : BeaconState)
    → 0 < env.context.slots_per_epoch
    → get_current_epoch env s ≡ ok (s.slot / env.context.slots_per_epoch)
unfolding get_current_epoch compute_epoch_at_slot
get_current_epoch-returns env s positive = div-eq s.slot env.context.slots_per_epoch positive

get_randao_mix-returns :
    (env : Env) (s : BeaconState) (epoch : Epoch)
    → 0 < env.generics.epochs_per_historical_vector
    → length s.randao_mixes ≡ env.generics.epochs_per_historical_vector
    → (mix : Bytes) × (get_randao_mix env epoch s ≡ ok mix)
unfolding get_randao_mix
get_randao_mix-returns env s epoch positive full =
    let size = env.generics.epochs_per_historical_vector in
    let in_range = mod-lt epoch positive in
    let (mix, found) = get_elem?-some s.randao_mixes (epoch % size) (rw full in_range) in
    (mix, rw (rem-eq epoch size positive, found) refl)

pub get_seed-returns :
    (env : Env) (s : BeaconState) (epoch : Epoch) (domain_type : DomainType)
    → 0 < env.generics.epochs_per_historical_vector
    → length s.randao_mixes ≡ env.generics.epochs_per_historical_vector
    → (seed : Bytes) × (get_seed env epoch domain_type s ≡ ok seed)
unfolding get_seed
get_seed-returns env s epoch domain_type positive full =
    let lookback =
      wrapping_sub env.context.epochs_per_historical_vector env.context.min_seed_lookahead in
    let (mix, mix_is) =
      get_randao_mix-returns env s (wrapping_sub (wrapping_add epoch lookback) 1) positive full in
    (env.externals.hash (as_bytes domain_type ++ to_le_bytes 8 epoch ++ mix), rw mix_is refl)

pub get_validator_churn_limit-returns :
    (env : Env) (s : BeaconState) (epoch : Epoch)
    → 0 < env.context.churn_limit_quotient
    → get_current_epoch env s ≡ ok epoch
    → (limit : ℕ) × (get_validator_churn_limit env s ≡ ok limit)
unfolding get_validator_churn_limit
get_validator_churn_limit-returns env s epoch positive now =
    let active = length (get_active_validator_indices epoch s) in
    (
      max env.context.min_per_epoch_churn_limit (active / env.context.churn_limit_quotient),
      rw (now, div-eq active env.context.churn_limit_quotient positive) refl,
    )
