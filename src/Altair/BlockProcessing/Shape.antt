-- ===== src/Altair/BlockProcessing/Shape.antt =====
-- An altair block keeps the lists of the state in step.
use ethereum_consensus.Prelude.{Bool, Option, none, some, List, [], ◌∷◌, length-append, arith}
use ethereum_consensus.Types.{
  Gwei, Epoch, Domain, ValidatorIndex, Validator, Deposit, BeaconBlockHeader,
  SignedBeaconBlockHeader, SignedVoluntaryExit, ProposerSlashing, AttesterSlashing,
}
use ethereum_consensus.Types.Altair.{BeaconState, BeaconBlock, BeaconBlockBody}
use ethereum_consensus.Action.{modify}
use ethereum_consensus.Action.Keeps.{Keeps, Keeps-bind, Keeps-modify, Keeps-read, keeps_rules}
use ethereum_consensus.Env.{Env}
use ethereum_consensus.Shape.{Shape}
use ethereum_consensus.BlockProcessing.Header.{with_header}
use ethereum_consensus.BlockProcessing.Header.Shape.{with_header-HasShape}
use ethereum_consensus.BlockProcessing.Randao.Shape as Randao
use ethereum_consensus.BlockProcessing.Slashings.{verify_header}
use ethereum_consensus.BlockProcessing.Slashings.Shape.{verify_header-HasShape}
use ethereum_consensus.BlockProcessing.Deposits.{count_deposit}
use ethereum_consensus.BlockProcessing.Deposits.Shape.{count_deposit-HasShape}
use ethereum_consensus.BlockProcessing.Exits.Shape as Exits
use ethereum_consensus.RegistrySize.{
  process_randao-HasSize, process_eth1_data-HasSize, process_voluntary_exit-HasSize,
}
use ethereum_consensus.RegistrySize.Blocks.{
  with_header-HasSize, count_deposit-HasSize, verify_header-HasSize,
}
use ethereum_consensus.Altair.Shared.{shared, on_shared, shared_body}
use ethereum_consensus.Altair.Consistent.{IsConsistent, on_shared-IsConsistent}
use ethereum_consensus.Altair.Slashing.Shape.{slash_validator-IsConsistent}
use ethereum_consensus.Altair.Attestations.Shape.{
  increase_balance-IsConsistent, process_attestation-IsConsistent,
}
use ethereum_consensus.Altair.SyncAggregate.Shape.{process_sync_aggregate-IsConsistent}
use ethereum_consensus.Altair.BlockProcessing.{
  push_validator, process_block_header, process_randao, process_eth1_data,
  process_proposer_slashing, slash_all, process_attester_slashing, add_validator, credit_or_add,
  process_deposit, process_voluntary_exit, process_operations, process_block,
}

module _ {k : Shape} where
  pub with_header-IsConsistent :
      (h : BeaconBlockHeader) → Keeps (IsConsistent k) (on_shared (modify (with_header h)))
  with_header-IsConsistent h =
      on_shared-IsConsistent _ (Keeps-modify _ (with_header-HasShape h))
        (λ n. Keeps-modify _ (with_header-HasSize h))

  count_deposit-IsConsistent : Keeps (IsConsistent k) (on_shared (modify count_deposit))
  count_deposit-IsConsistent =
      on_shared-IsConsistent _ (Keeps-modify _ count_deposit-HasShape)
        (λ n. Keeps-modify _ count_deposit-HasSize)

  push_validator-IsConsistent :
      (v : Validator) (amount : Gwei) (s : BeaconState)
      → IsConsistent k s
      → IsConsistent k (push_validator v amount s)
  unfolding push_validator shared
  push_validator-IsConsistent v amount s h = ground (
    arith,
    h.shared_is,
    length-append s.validators (v ∷ []),
    length-append s.balances (amount ∷ []),
    length-append s.previous_epoch_participation (0 ∷ []),
    length-append s.current_epoch_participation (0 ∷ []),
    length-append s.inactivity_scores (0 ∷ []),
  )

module _ (env : Env) {k : Shape} where
  process_block_header-IsConsistent :
      (block : BeaconBlock) → Keeps (IsConsistent k) (process_block_header env block)
  unfolding process_block_header
  process_block_header-IsConsistent block = search (keeps_rules, with_header-IsConsistent) depth 18

  pub process_randao-IsConsistent :
      (body : BeaconBlockBody) → Keeps (IsConsistent k) (process_randao env body)
  unfolding process_randao
  process_randao-IsConsistent body =
      on_shared-IsConsistent _ (Randao.process_randao-HasShape env (shared_body body))
        (λ n. process_randao-HasSize env (shared_body body))

  pub process_eth1_data-IsConsistent :
      (body : BeaconBlockBody) → Keeps (IsConsistent k) (process_eth1_data env body)
  unfolding process_eth1_data
  process_eth1_data-IsConsistent body =
      on_shared-IsConsistent _ (Randao.process_eth1_data-HasShape env (shared_body body))
        (λ n. process_eth1_data-HasSize env (shared_body body))

  verify_header-IsConsistent :
      (v : Validator) (domain : Domain) (h : SignedBeaconBlockHeader)
      → Keeps (IsConsistent k) (on_shared (verify_header env v domain h))
  verify_header-IsConsistent v domain h =
      on_shared-IsConsistent _ (verify_header-HasShape env v domain h)
        (λ n. verify_header-HasSize env v domain h)

  pub process_proposer_slashing-IsConsistent :
      (op : ProposerSlashing) → Keeps (IsConsistent k) (process_proposer_slashing env op)
  unfolding process_proposer_slashing
  process_proposer_slashing-IsConsistent op =
      search (keeps_rules, verify_header-IsConsistent, slash_validator-IsConsistent) depth 16

  slash_all-IsConsistent :
      (epoch : Epoch) (indices : List ValidatorIndex) (slashed_any : Bool)
      → Keeps (IsConsistent k) (slash_all env epoch indices slashed_any)
  unfolding slash_all
  slash_all-IsConsistent epoch [] slashed_any = search keeps_rules
  slash_all-IsConsistent epoch (i ∷ indices) slashed_any = Keeps-bind _ _ (Keeps-read _) λ v.
      Keeps-bind _ _ (search (keeps_rules, slash_validator-IsConsistent))
        λ _. slash_all-IsConsistent epoch indices _

  pub process_attester_slashing-IsConsistent :
      (op : AttesterSlashing) → Keeps (IsConsistent k) (process_attester_slashing env op)
  unfolding process_attester_slashing
  process_attester_slashing-IsConsistent op = search (keeps_rules, slash_all-IsConsistent) depth 14

  add_validator-IsConsistent : (d : Deposit) → Keeps (IsConsistent k) (add_validator env d)
  unfolding add_validator
  add_validator-IsConsistent d =
      search (keeps_rules, Keeps-modify, push_validator-IsConsistent) depth 12

  credit_or_add-IsConsistent :
      (d : Deposit) (known : Option ValidatorIndex)
      → Keeps (IsConsistent k) (credit_or_add env d known)
  unfolding credit_or_add
  credit_or_add-IsConsistent d none = add_validator-IsConsistent d
  credit_or_add-IsConsistent d (some i) = increase_balance-IsConsistent i _

  pub process_deposit-IsConsistent : (d : Deposit) → Keeps (IsConsistent k) (process_deposit env d)
  unfolding process_deposit
  process_deposit-IsConsistent d =
      search (keeps_rules, count_deposit-IsConsistent, credit_or_add-IsConsistent) depth 12

  pub process_voluntary_exit-IsConsistent :
      (op : SignedVoluntaryExit) → Keeps (IsConsistent k) (process_voluntary_exit env op)
  unfolding process_voluntary_exit
  process_voluntary_exit-IsConsistent op =
      on_shared-IsConsistent _ (Exits.process_voluntary_exit-HasShape env op)
        (λ n. process_voluntary_exit-HasSize env op)

  process_operations-IsConsistent :
      (body : BeaconBlockBody) → Keeps (IsConsistent k) (process_operations env body)
  unfolding process_operations
  process_operations-IsConsistent body =
      search
        (
          keeps_rules, process_proposer_slashing-IsConsistent,
          process_attester_slashing-IsConsistent, process_attestation-IsConsistent,
          process_deposit-IsConsistent, process_voluntary_exit-IsConsistent,
        )
        depth 14

  pub process_block-IsConsistent :
      (block : BeaconBlock) → Keeps (IsConsistent k) (process_block env block)
  unfolding process_block
  process_block-IsConsistent block =
      search
        (
          keeps_rules, process_block_header-IsConsistent, process_randao-IsConsistent,
          process_eth1_data-IsConsistent, process_operations-IsConsistent,
          process_sync_aggregate-IsConsistent,
        )
        depth 12
