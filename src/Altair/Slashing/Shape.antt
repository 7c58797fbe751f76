-- ===== src/Altair/Slashing/Shape.antt =====
-- The slashing of a validator keeps the lists of the state in step.
use ethereum_consensus.Prelude.{ℕ, Option}
use ethereum_consensus.Types.{ValidatorIndex}
use ethereum_consensus.Action.Keeps.{Keeps, keeps_rules}
use ethereum_consensus.Env.{Env}
use ethereum_consensus.Shape.{Shape, HasShape}
use ethereum_consensus.Helpers.Balances.Shape.{increase_balance-HasShape, decrease_balance-HasShape}
use ethereum_consensus.Helpers.Exits.Shape.{
  update_validator-HasShape, initiate_validator_exit-HasShape, add_slashing-HasShape,
}
use ethereum_consensus.RegistrySize.{
  HasSize, increase_balance-HasSize, decrease_balance-HasSize, update_validator-HasSize,
  initiate_validator_exit-HasSize, add_slashing-HasSize,
}
use ethereum_consensus.Altair.Consistent.{IsConsistent, on_shared-IsConsistent}
use ethereum_consensus.Altair.Slashing.{pay_whistleblower, slash_part, slash_validator}

module _ (env : Env) (i : ValidatorIndex) (whistleblower : Option ValidatorIndex) where
  pay_whistleblower-HasShape :
      {k : Shape} → Keeps (HasShape k) (pay_whistleblower env i whistleblower)
  unfolding pay_whistleblower
  pay_whistleblower-HasShape = search (keeps_rules, increase_balance-HasShape) depth 12

  pay_whistleblower-HasSize : {n : ℕ} → Keeps (HasSize n) (pay_whistleblower env i whistleblower)
  unfolding pay_whistleblower
  pay_whistleblower-HasSize = search (keeps_rules, increase_balance-HasSize) depth 12

  slash_part-HasShape : {k : Shape} → Keeps (HasShape k) (slash_part env i whistleblower)
  unfolding slash_part
  slash_part-HasShape =
      search
        (
          keeps_rules, initiate_validator_exit-HasShape, update_validator-HasShape,
          add_slashing-HasShape, decrease_balance-HasShape, pay_whistleblower-HasShape,
        )
        depth 12

  slash_part-HasSize : {n : ℕ} → Keeps (HasSize n) (slash_part env i whistleblower)
  unfolding slash_part
  slash_part-HasSize =
      search
        (
          keeps_rules, initiate_validator_exit-HasSize, update_validator-HasSize,
          add_slashing-HasSize, decrease_balance-HasSize, pay_whistleblower-HasSize,
        )
        depth 12

  pub slash_validator-IsConsistent :
      {k : Shape} → Keeps (IsConsistent k) (slash_validator env i whistleblower)
  unfolding slash_validator
  slash_validator-IsConsistent =
      on_shared-IsConsistent _ slash_part-HasShape (λ n. slash_part-HasSize)
