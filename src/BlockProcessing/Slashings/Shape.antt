-- ===== src/BlockProcessing/Slashings/Shape.antt =====
-- The two slashings keep the shape of the state.
use ethereum_consensus.Prelude.{Bool, List, [], ◌∷◌}
use ethereum_consensus.Types.{
  Epoch, Domain, ValidatorIndex, Validator, SignedBeaconBlockHeader, ProposerSlashing,
  AttesterSlashing,
}
use ethereum_consensus.Action.Keeps.{Keeps, Keeps-bind, Keeps-read, keeps_rules}
use ethereum_consensus.Env.{Env}
use ethereum_consensus.Shape.{Shape, HasShape}
use ethereum_consensus.Helpers.Exits.Shape.{slash_validator-HasShape}
use ethereum_consensus.BlockProcessing.Slashings.{
  verify_header, process_proposer_slashing, slash_all, process_attester_slashing,
}

module _ (env : Env) {k : Shape} where
  pub verify_header-HasShape :
      (v : Validator) (domain : Domain) (h : SignedBeaconBlockHeader)
      → Keeps (HasShape k) (verify_header env v domain h)
  unfolding verify_header
  verify_header-HasShape v domain h = search keeps_rules depth 9

  pub process_proposer_slashing-HasShape :
      (op : ProposerSlashing) → Keeps (HasShape k) (process_proposer_slashing env op)
  unfolding process_proposer_slashing
  process_proposer_slashing-HasShape op =
      search (keeps_rules, verify_header-HasShape, slash_validator-HasShape) depth 16

  slash_all-HasShape :
      (epoch : Epoch) (indices : List ValidatorIndex) (slashed_any : Bool)
      → Keeps (HasShape k) (slash_all env epoch indices slashed_any)
  unfolding slash_all
  slash_all-HasShape epoch [] slashed_any = search keeps_rules
  slash_all-HasShape epoch (i ∷ indices) slashed_any = Keeps-bind _ _ (Keeps-read _) λ v.
      Keeps-bind _ _ (search (keeps_rules, slash_validator-HasShape))
        λ _. slash_all-HasShape epoch indices _

  pub process_attester_slashing-HasShape :
      (op : AttesterSlashing) → Keeps (HasShape k) (process_attester_slashing env op)
  unfolding process_attester_slashing
  process_attester_slashing-HasShape op = search (keeps_rules, slash_all-HasShape) depth 14
