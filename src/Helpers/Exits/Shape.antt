-- ===== src/Helpers/Exits/Shape.antt =====
-- Exits and slashings keep the shape of the state.
use ethereum_consensus.Prelude.{ℕ, Option, set, length-set, arith}
use ethereum_consensus.Types.{ValidatorIndex, Validator, BeaconState}
use ethereum_consensus.Action.Keeps.{Keeps, Keeps-modify, keeps_rules}
use ethereum_consensus.Env.{Env}
use ethereum_consensus.Shape.{Shape, HasShape}
use ethereum_consensus.Helpers.Balances.Shape.{increase_balance-HasShape, decrease_balance-HasShape}
use ethereum_consensus.Helpers.Exits.{
  with_validators, set_validator, with_slashings, update_validator, queue_exit,
  initiate_validator_exit, add_slashing, pay_whistleblower, slash_validator,
}

module _ {k : Shape} where
  pub set_validator-HasShape :
      (i : ℕ) (v : Validator) (s : BeaconState) → HasShape k s → HasShape k (set_validator i v s)
  unfolding set_validator with_validators
  set_validator-HasShape i v s h = ground (arith, length-set s.validators i v)

  pub update_validator-HasShape :
      (i : ℕ) (f : Validator → Validator) → Keeps (HasShape k) (update_validator i f)
  unfolding update_validator
  update_validator-HasShape i f = search (keeps_rules, Keeps-modify, set_validator-HasShape)

  pub set_slashing-HasShape :
      (i amount : ℕ) (s : BeaconState)
      → HasShape k s
      → HasShape k (with_slashings (set s.slashings i amount) s)
  unfolding with_slashings
  set_slashing-HasShape i amount s h = ground (arith, length-set s.slashings i amount)

module _ (env : Env) {k : Shape} where
  pub initiate_validator_exit-HasShape :
      (i : ValidatorIndex) → Keeps (HasShape k) (initiate_validator_exit env i)
  unfolding initiate_validator_exit queue_exit
  initiate_validator_exit-HasShape i = search (keeps_rules, update_validator-HasShape) depth 9

  pub add_slashing-HasShape :
      (epoch balance : ℕ) → Keeps (HasShape k) (add_slashing env epoch balance)
  unfolding add_slashing
  add_slashing-HasShape epoch balance =
      search (keeps_rules, Keeps-modify, set_slashing-HasShape) depth 7

  pay_whistleblower-HasShape :
      (i : ValidatorIndex) (whistleblower : Option ValidatorIndex)
      → Keeps (HasShape k) (pay_whistleblower env i whistleblower)
  unfolding pay_whistleblower
  pay_whistleblower-HasShape i whistleblower =
      search (keeps_rules, increase_balance-HasShape) depth 9

  pub slash_validator-HasShape :
      (i : ValidatorIndex) (whistleblower : Option ValidatorIndex)
      → Keeps (HasShape k) (slash_validator env i whistleblower)
  unfolding slash_validator
  slash_validator-HasShape i whistleblower =
      search
        (
          keeps_rules, initiate_validator_exit-HasShape, update_validator-HasShape,
          add_slashing-HasShape, decrease_balance-HasShape, pay_whistleblower-HasShape,
        )
        depth 12
