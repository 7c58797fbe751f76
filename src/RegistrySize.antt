-- ===== src/RegistrySize.antt =====
-- What leaves the number of validators as it is.
pub mod Epochs
pub mod Blocks
use ethereum_consensus.Prelude.{ℕ, ◌≡◌, List, set, length, length-set, arith}
use ethereum_consensus.Types.{
  ValidatorIndex, Validator, BeaconState, SignedVoluntaryExit, BeaconBlockBody,
}
use ethereum_consensus.Action.Keeps.{Keeps, Keeps-modify, keeps_rules}
use ethereum_consensus.Env.{Env}
use ethereum_consensus.Helpers.Balances.{
  with_balances, set_balance, increase_balance, decrease_balance,
}
use ethereum_consensus.Helpers.Exits.{
  with_validators, set_validator, with_slashings, update_validator, queue_exit,
  initiate_validator_exit, add_slashing,
}
use ethereum_consensus.BlockProcessing.Exits.{process_voluntary_exit}
use ethereum_consensus.EpochProcessing.Resets.{write_mix}
use ethereum_consensus.BlockProcessing.Randao.{
  push_vote, with_eth1_data, process_randao, process_eth1_data,
}

pub record HasSize (n : ℕ) (s : BeaconState) : Type 0 where
  pub size_is : length s.validators ≡ n

module _ {n : ℕ} where
  set_balance-HasSize :
      (i balance : ℕ) (s : BeaconState) → HasSize n s → HasSize n (set_balance i balance s)
  unfolding set_balance with_balances
  set_balance-HasSize i balance s h = ground arith

  pub increase_balance-HasSize : (i delta : ℕ) → Keeps (HasSize n) (increase_balance i delta)
  unfolding increase_balance
  increase_balance-HasSize i delta = search (keeps_rules, Keeps-modify, set_balance-HasSize)

  pub decrease_balance-HasSize : (i delta : ℕ) → Keeps (HasSize n) (decrease_balance i delta)
  unfolding decrease_balance
  decrease_balance-HasSize i delta = search (keeps_rules, Keeps-modify, set_balance-HasSize)

  set_validator-HasSize :
      (i : ℕ) (v : Validator) (s : BeaconState) → HasSize n s → HasSize n (set_validator i v s)
  unfolding set_validator with_validators
  set_validator-HasSize i v s h = ground (arith, length-set s.validators i v)

  pub update_validator-HasSize :
      (i : ℕ) (f : Validator → Validator) → Keeps (HasSize n) (update_validator i f)
  unfolding update_validator
  update_validator-HasSize i f = search (keeps_rules, Keeps-modify, set_validator-HasSize)

  pub set_slashing-HasSize :
      (i amount : ℕ) (s : BeaconState)
      → HasSize n s
      → HasSize n (with_slashings (set s.slashings i amount) s)
  unfolding with_slashings
  set_slashing-HasSize i amount s h = ground arith

  set_mix-HasSize :
      (i : ℕ) (mix : List ℕ) (s : BeaconState)
      → HasSize n s
      → HasSize n (record s { randao_mixes = set s.randao_mixes i mix })
  set_mix-HasSize i mix s h = ground arith

  pub write_mix-HasSize : (i : ℕ) (mix : List ℕ) → Keeps (HasSize n) (write_mix i mix)
  unfolding write_mix
  write_mix-HasSize i mix = search (keeps_rules, Keeps-modify, set_mix-HasSize)

module _ (env : Env) {n : ℕ} where
  pub initiate_validator_exit-HasSize :
      (i : ValidatorIndex) → Keeps (HasSize n) (initiate_validator_exit env i)
  unfolding initiate_validator_exit queue_exit
  initiate_validator_exit-HasSize i = search (keeps_rules, update_validator-HasSize) depth 9

  pub add_slashing-HasSize :
      (epoch balance : ℕ) → Keeps (HasSize n) (add_slashing env epoch balance)
  unfolding add_slashing
  add_slashing-HasSize epoch balance =
      search (keeps_rules, Keeps-modify, set_slashing-HasSize) depth 7

  pub process_voluntary_exit-HasSize :
      (op : SignedVoluntaryExit) → Keeps (HasSize n) (process_voluntary_exit env op)
  unfolding process_voluntary_exit
  process_voluntary_exit-HasSize op = search (keeps_rules, initiate_validator_exit-HasSize) depth 16

  pub process_randao-HasSize :
      (body : BeaconBlockBody) → Keeps (HasSize n) (process_randao env body)
  unfolding process_randao
  process_randao-HasSize body = search (keeps_rules, write_mix-HasSize) depth 14

  push_vote-HasSize :
      (body : BeaconBlockBody) (s : BeaconState)
      → HasSize n s
      → HasSize n (push_vote body.eth1_data s)
  unfolding push_vote
  push_vote-HasSize body s h = ground arith

  with_eth1_data-HasSize :
      (body : BeaconBlockBody) (s : BeaconState)
      → HasSize n s
      → HasSize n (with_eth1_data body.eth1_data s)
  unfolding with_eth1_data
  with_eth1_data-HasSize body s h = ground arith

  pub process_eth1_data-HasSize :
      (body : BeaconBlockBody) → Keeps (HasSize n) (process_eth1_data env body)
  unfolding process_eth1_data
  process_eth1_data-HasSize body =
      search (keeps_rules, Keeps-modify, push_vote-HasSize, with_eth1_data-HasSize) depth 9
