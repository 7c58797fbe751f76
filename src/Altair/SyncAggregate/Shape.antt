-- ===== src/Altair/SyncAggregate/Shape.antt =====
-- A sync aggregate keeps the lists of the state in step.
use ethereum_consensus.Prelude.{Bool, List, [], ◌∷◌}
use ethereum_consensus.Types.{Gwei, ValidatorIndex}
use ethereum_consensus.Types.Altair.{SyncAggregate}
use ethereum_consensus.Action.Keeps.{Keeps, Keeps-pure, Keeps-bind, keeps_rules}
use ethereum_consensus.Env.{Env}
use ethereum_consensus.Shape.{Shape}
use ethereum_consensus.Altair.Consistent.{IsConsistent}
use ethereum_consensus.Altair.Attestations.Shape.{
  increase_balance-IsConsistent, decrease_balance-IsConsistent,
}
use ethereum_consensus.Altair.SyncAggregate.{
  verify_sync_aggregate, reward_participant, reward_participants, process_sync_aggregate,
}

module _ (env : Env) {k : Shape} where
  verify_sync_aggregate-IsConsistent :
      (aggregate : SyncAggregate) → Keeps (IsConsistent k) (verify_sync_aggregate env aggregate)
  unfolding verify_sync_aggregate
  verify_sync_aggregate-IsConsistent aggregate = search keeps_rules depth 16

  reward_participant-IsConsistent :
      (reward : Gwei) (i : ValidatorIndex) (bit : Bool)
      → Keeps (IsConsistent k) (reward_participant env reward i bit)
  unfolding reward_participant
  reward_participant-IsConsistent reward i bit =
      search (keeps_rules, increase_balance-IsConsistent, decrease_balance-IsConsistent) depth 9

  reward_participants-IsConsistent :
      (reward : Gwei) (indices : List ValidatorIndex) (bits : List Bool)
      → Keeps (IsConsistent k) (reward_participants env reward indices bits)
  unfolding reward_participants
  reward_participants-IsConsistent reward [] bits = Keeps-pure _
  reward_participants-IsConsistent reward (i ∷ indices) [] = Keeps-pure _
  reward_participants-IsConsistent reward (i ∷ indices) (bit ∷ bits) =
      Keeps-bind _ _ (reward_participant-IsConsistent reward i bit)
        (λ _. reward_participants-IsConsistent reward indices bits)

  pub process_sync_aggregate-IsConsistent :
      (aggregate : SyncAggregate) → Keeps (IsConsistent k) (process_sync_aggregate env aggregate)
  unfolding process_sync_aggregate
  process_sync_aggregate-IsConsistent aggregate =
      search (keeps_rules, verify_sync_aggregate-IsConsistent, reward_participants-IsConsistent)
        depth 9
