-- ===== src/History.antt =====
-- What leaves the slot of a state and its block roots as they are: changes of balances, validators and
-- mixes.
pub mod Epochs
use ethereum_consensus.Prelude.{ℕ, ◌≡◌, List, set, arith}
use ethereum_consensus.Types.{Root, Slot, ValidatorIndex, Validator, BeaconState}
use ethereum_consensus.Action.Keeps.{Keeps, Keeps-modify, keeps_rules}
use ethereum_consensus.Env.{Env}
use ethereum_consensus.Helpers.Balances.{
  with_balances, set_balance, increase_balance, decrease_balance,
}
use ethereum_consensus.Helpers.Exits.{
  with_validators, set_validator, with_slashings, update_validator, queue_exit,
  initiate_validator_exit,
}
use ethereum_consensus.EpochProcessing.Resets.{write_mix}

pub record HasHistory (slot : Slot) (roots : List Root) (s : BeaconState) : Type 0 where
  pub slot_is : s.slot ≡ slot
  pub roots_are : s.block_roots ≡ roots

module _ {slot : Slot} {roots : List Root} where
  set_balance-HasHistory :
      (i balance : ℕ) (s : BeaconState)
      → HasHistory slot roots s
      → HasHistory slot roots (set_balance i balance s)
  unfolding set_balance with_balances
  set_balance-HasHistory i balance s h = ground arith

  pub increase_balance-HasHistory :
      (i delta : ℕ) → Keeps (HasHistory slot roots) (increase_balance i delta)
  unfolding increase_balance
  increase_balance-HasHistory i delta = search (keeps_rules, Keeps-modify, set_balance-HasHistory)

  pub decrease_balance-HasHistory :
      (i delta : ℕ) → Keeps (HasHistory slot roots) (decrease_balance i delta)
  unfolding decrease_balance
  decrease_balance-HasHistory i delta = search (keeps_rules, Keeps-modify, set_balance-HasHistory)

  set_validator-HasHistory :
      (i : ℕ) (v : Validator) (s : BeaconState)
      → HasHistory slot roots s
      → HasHistory slot roots (set_validator i v s)
  unfolding set_validator with_validators
  set_validator-HasHistory i v s h = ground arith

  pub update_validator-HasHistory :
      (i : ℕ) (f : Validator → Validator) → Keeps (HasHistory slot roots) (update_validator i f)
  unfolding update_validator
  update_validator-HasHistory i f = search (keeps_rules, Keeps-modify, set_validator-HasHistory)

  pub set_slashing-HasHistory :
      (i amount : ℕ) (s : BeaconState)
      → HasHistory slot roots s
      → HasHistory slot roots (with_slashings (set s.slashings i amount) s)
  unfolding with_slashings
  set_slashing-HasHistory i amount s h = ground arith

  set_mix-HasHistory :
      (i : ℕ) (mix : List ℕ) (s : BeaconState)
      → HasHistory slot roots s
      → HasHistory slot roots (record s { randao_mixes = set s.randao_mixes i mix })
  set_mix-HasHistory i mix s h = ground arith

  pub write_mix-HasHistory :
      (i : ℕ) (mix : List ℕ) → Keeps (HasHistory slot roots) (write_mix i mix)
  unfolding write_mix
  write_mix-HasHistory i mix = search (keeps_rules, Keeps-modify, set_mix-HasHistory)

module _ (env : Env) {slot : Slot} {roots : List Root} where
  pub initiate_validator_exit-HasHistory :
      (i : ValidatorIndex) → Keeps (HasHistory slot roots) (initiate_validator_exit env i)
  unfolding initiate_validator_exit queue_exit
  initiate_validator_exit-HasHistory i = search (keeps_rules, update_validator-HasHistory) depth 9
