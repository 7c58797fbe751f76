-- ===== src/BlockProcessing/Deposits/Shape.antt =====
-- `process_deposit` keeps the shape of the state: a new validator comes with its balance.
use ethereum_consensus.Prelude.{ℕ, Option, none, some, [], ◌∷◌, length-append, arith}
use ethereum_consensus.Types.{Gwei, Validator, Deposit, BeaconState}
use ethereum_consensus.Action.Keeps.{Keeps, Keeps-modify, keeps_rules}
use ethereum_consensus.Env.{Env}
use ethereum_consensus.Shape.{Shape, HasShape}
use ethereum_consensus.Helpers.Balances.Shape.{increase_balance-HasShape}
use ethereum_consensus.BlockProcessing.Deposits.{
  count_deposit, push_validator, add_validator, credit_or_add, process_deposit,
}

module _ {k : Shape} where
  pub count_deposit-HasShape : (s : BeaconState) → HasShape k s → HasShape k (count_deposit s)
  unfolding count_deposit
  count_deposit-HasShape s h = ground arith

  push_validator-HasShape :
      (v : Validator) (amount : Gwei) (s : BeaconState)
      → HasShape k s
      → HasShape k (push_validator v amount s)
  unfolding push_validator
  push_validator-HasShape v amount s h =
      ground (arith, length-append s.validators (v ∷ []), length-append s.balances (amount ∷ []))

module _ (env : Env) {k : Shape} where
  add_validator-HasShape : (d : Deposit) → Keeps (HasShape k) (add_validator env d)
  unfolding add_validator
  add_validator-HasShape d = search (keeps_rules, Keeps-modify, push_validator-HasShape) depth 12

  credit_or_add-HasShape :
      (d : Deposit) (known : Option ℕ) → Keeps (HasShape k) (credit_or_add env d known)
  unfolding credit_or_add
  credit_or_add-HasShape d none = add_validator-HasShape d
  credit_or_add-HasShape d (some i) = increase_balance-HasShape i _

  pub process_deposit-HasShape : (d : Deposit) → Keeps (HasShape k) (process_deposit env d)
  unfolding process_deposit
  process_deposit-HasShape d =
      search (keeps_rules, Keeps-modify, count_deposit-HasShape, credit_or_add-HasShape) depth 12
