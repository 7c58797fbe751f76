-- ===== src/Helpers/Balances/Shape.antt =====
-- The writes to a balance keep the shape of the state.
use ethereum_consensus.Prelude.{ℕ, length-set, arith}
use ethereum_consensus.Types.{BeaconState}
use ethereum_consensus.Action.Keeps.{Keeps, Keeps-modify, keeps_rules}
use ethereum_consensus.Shape.{Shape, HasShape}
use ethereum_consensus.Helpers.Balances.{
  with_balances, set_balance, increase_balance, decrease_balance,
}

module _ {k : Shape} where
  set_balance-HasShape :
      (i balance : ℕ) (s : BeaconState) → HasShape k s → HasShape k (set_balance i balance s)
  unfolding set_balance with_balances
  set_balance-HasShape i balance s h = ground (arith, length-set s.balances i balance)

  pub increase_balance-HasShape : (i delta : ℕ) → Keeps (HasShape k) (increase_balance i delta)
  unfolding increase_balance
  increase_balance-HasShape i delta = search (keeps_rules, Keeps-modify, set_balance-HasShape)

  pub decrease_balance-HasShape : (i delta : ℕ) → Keeps (HasShape k) (decrease_balance i delta)
  unfolding decrease_balance
  decrease_balance-HasShape i delta = search (keeps_rules, Keeps-modify, set_balance-HasShape)
