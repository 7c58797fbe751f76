-- ===== src/Helpers/Balances.antt =====
-- ethereum-consensus/src/phase0/helpers.rs: balances, and the sums of effective balances. The two
-- writes panic on an index out of bounds, as indexing does in the source.
pub mod Total
pub mod Shape
use ethereum_consensus.Prelude.{
  ℕ, ◌-◌, ◌+◌, Bool, List, [], ◌∷◌, max, leb, ltb, set, indices_where, ◌&&◌, ◌||◌, if◌then◌else◌,
  u64_mod, wrapping_add,
}
use ethereum_consensus.Prelude.Sets.{from_iter}
use ethereum_consensus.Types.{Gwei, ValidatorIndex, BeaconState, Validator}
use ethereum_consensus.Errors.{overflow}
use ethereum_consensus.Outcome
use ethereum_consensus.Outcome.{Outcome, ok, err, index}
use ethereum_consensus.Action.{Action, read, modify, ◌>>=◌}
use ethereum_consensus.Env.{Env}
use ethereum_consensus.Helpers.Predicates.{is_active_validator}
use ethereum_consensus.Helpers.Epochs.{get_current_epoch, get_previous_epoch}
use ethereum_consensus.Helpers.Accessors.{get_active_validator_indices}

unfoldable pub with_balances : List Gwei → BeaconState → BeaconState
with_balances balances state = record state { balances = balances }

-- `state.balances[index] = balance`
unfoldable pub set_balance : ValidatorIndex → Gwei → BeaconState → BeaconState
set_balance i balance state = with_balances (set state.balances i balance) state

unfoldable pub increase_balance : ValidatorIndex → Gwei → Action (Unit {0})
increase_balance i delta = do
  balance ← read (λ state. index state.balances i)
  modify (set_balance i (wrapping_add balance delta))

unfoldable pub decrease_balance : ValidatorIndex → Gwei → Action (Unit {0})
decrease_balance i delta = do
  balance ← read (λ state. index state.balances i)
  modify (set_balance i (if ltb balance delta then 0 else balance - delta))

-- `acc.checked_add(balance)`, and `Error::Overflow` where it fails
unfoldable pub checked_add : Gwei → Gwei → Outcome Gwei
checked_add a b = if leb u64_mod (a + b) then err overflow else ok (a + b)

-- `try_fold` over the set
unfoldable pub total_from : Gwei → List ValidatorIndex → BeaconState → Outcome Gwei
total_from acc [] state = ok acc
total_from acc (i ∷ indices) state = Outcome.◌>>=◌ (index state.validators i) λ validator.
    Outcome.◌>>=◌ (checked_add acc validator.effective_balance)
      λ acc'. total_from acc' indices state

module _ (env : Env) where
  open env use {context}

  unfoldable pub get_total_balance : List ValidatorIndex → BeaconState → Outcome Gwei
  get_total_balance indices state =
      Outcome.◌>>=◌ (total_from 0 indices state)
        λ total_balance. ok (max total_balance context.effective_balance_increment)

  unfoldable pub get_total_active_balance : BeaconState → Outcome Gwei
  get_total_active_balance state = Outcome.◌>>=◌ (get_current_epoch env state) λ current_epoch.
      get_total_balance (from_iter (get_active_validator_indices current_epoch state)) state

  unfoldable pub is_eligible_validator : ℕ → Validator → Bool
  is_eligible_validator previous_epoch v =
      is_active_validator v previous_epoch
      || (v.slashed && ltb (wrapping_add previous_epoch 1) v.withdrawable_epoch)

  unfoldable pub get_eligible_validator_indices : BeaconState → Outcome (List ValidatorIndex)
  get_eligible_validator_indices state =
      Outcome.◌>>=◌ (get_previous_epoch env state) λ previous_epoch.
        ok (indices_where (is_eligible_validator previous_epoch) 0 state.validators)
