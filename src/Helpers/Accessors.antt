-- ===== src/Helpers/Accessors.antt =====
-- ethereum-consensus/src/phase0/helpers.rs: block roots, randao mixes, the active validators, the
-- churn limit, the seed of an epoch and the number of committees in a slot.
pub mod Returns
use ethereum_consensus.Prelude.{
  ℕ, ◌||◌, List, ◌++◌, length, indices_where, leb, ltb, max, min, if◌then◌else◌, wrapping_add,
  wrapping_sub,
}
use ethereum_consensus.Prelude.Bytes.{Bytes, to_le_bytes}
use ethereum_consensus.Types.{Root, Slot, Epoch, ValidatorIndex, BeaconState, DomainType, as_bytes}
use ethereum_consensus.Errors.{slot_out_of_range}
use ethereum_consensus.Outcome.{Outcome, ok, err, div, rem, index, ◌>>=◌}
use ethereum_consensus.Env.{Env}
use ethereum_consensus.Helpers.Predicates.{is_active_validator}
use ethereum_consensus.Helpers.Epochs.{compute_start_slot_at_epoch, get_current_epoch}

-- The validators that are active in an epoch, in the order of the registry.
unfoldable pub get_active_validator_indices : Epoch → BeaconState → List ValidatorIndex
get_active_validator_indices epoch state =
    indices_where (λ v. is_active_validator v epoch) 0 state.validators

module _ (env : Env) where
  open env use {context, generics, externals}

  unfoldable pub get_block_root_at_slot : Slot → BeaconState → Outcome Root
  get_block_root_at_slot slot state =
      if leb state.slot slot
        || ltb (wrapping_add slot generics.slots_per_historical_root) state.slot
      then err (
          slot_out_of_range slot (wrapping_sub state.slot 1)
            (wrapping_add state.slot generics.slots_per_historical_root))
      else do i ← rem slot generics.slots_per_historical_root; index state.block_roots i

  unfoldable pub get_block_root : Epoch → BeaconState → Outcome Root
  get_block_root epoch state = get_block_root_at_slot (compute_start_slot_at_epoch env epoch) state

  unfoldable pub get_randao_mix : Epoch → BeaconState → Outcome Bytes
  get_randao_mix epoch state = do
    i ← rem epoch generics.epochs_per_historical_vector
    index state.randao_mixes i

  unfoldable pub get_validator_churn_limit : BeaconState → Outcome ℕ
  get_validator_churn_limit state = do
    current_epoch ← get_current_epoch env state
    share ←
        div (length (get_active_validator_indices current_epoch state)) context.churn_limit_quotient
    ok (max context.min_per_epoch_churn_limit share)

  unfoldable pub get_seed : Epoch → DomainType → BeaconState → Outcome Bytes
  get_seed epoch domain_type state = do
    let lookback = wrapping_sub context.epochs_per_historical_vector context.min_seed_lookahead
    let mix_epoch = wrapping_sub (wrapping_add epoch lookback) 1
    mix ← get_randao_mix mix_epoch state
    ok (externals.hash (as_bytes domain_type ++ to_le_bytes 8 epoch ++ mix))

  unfoldable pub get_committee_count_per_slot : Epoch → BeaconState → Outcome ℕ
  get_committee_count_per_slot epoch state = do
    per_slot ← div (length (get_active_validator_indices epoch state)) context.slots_per_epoch
    committees ← div per_slot context.target_committee_size
    ok (max 1 (min context.max_committees_per_slot committees))
