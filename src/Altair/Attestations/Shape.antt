-- ===== src/Altair/Attestations/Shape.antt =====
-- An attestation keeps the lists of the state in step.
use ethereum_consensus.Prelude.{ℕ, true, false, Bool, List, [], ◌∷◌, length-set, arith}
use ethereum_consensus.Types.{Epoch, Gwei, ValidatorIndex, Attestation}
use ethereum_consensus.Types.Altair.{BeaconState}
use ethereum_consensus.Action.Keeps.{Keeps, Keeps-modify, Keeps-pure, Keeps-bind, keeps_rules}
use ethereum_consensus.Env.{Env}
use ethereum_consensus.Shape.{Shape}
use ethereum_consensus.Helpers.Balances.Shape.{increase_balance-HasShape, decrease_balance-HasShape}
use ethereum_consensus.BlockProcessing.Attestations as Phase0
use ethereum_consensus.BlockProcessing.Attestations.Shape.{check_timing-HasShape}
use ethereum_consensus.RegistrySize.{increase_balance-HasSize, decrease_balance-HasSize}
use ethereum_consensus.RegistrySize.Blocks.{check_timing-HasSize}
use ethereum_consensus.Altair.Shared.{shared, on_shared}
use ethereum_consensus.Altair.Spec.{increase_balance, decrease_balance}
use ethereum_consensus.Altair.Flags.{add_flag}
use ethereum_consensus.Altair.Consistent.{IsConsistent, on_shared-IsConsistent}
use ethereum_consensus.Altair.Attestations.{
  participation_of, with_participation, set_flag, reward_flag, reward_flags, reward_attesters,
  check_members, apply_attestation, process_attestation,
}

module _ {k : Shape} where
  pub increase_balance-IsConsistent :
      (i : ValidatorIndex) (delta : Gwei) → Keeps (IsConsistent k) (increase_balance i delta)
  unfolding increase_balance
  increase_balance-IsConsistent i delta =
      on_shared-IsConsistent _ (increase_balance-HasShape i delta)
        (λ n. increase_balance-HasSize i delta)

  pub decrease_balance-IsConsistent :
      (i : ValidatorIndex) (delta : Gwei) → Keeps (IsConsistent k) (decrease_balance i delta)
  unfolding decrease_balance
  decrease_balance-IsConsistent i delta =
      on_shared-IsConsistent _ (decrease_balance-HasShape i delta)
        (λ n. decrease_balance-HasSize i delta)

  set_flag-IsConsistent :
      (is_current : Bool) (i old flag_index : ℕ) (s : BeaconState)
      → IsConsistent k s
      → IsConsistent k (set_flag is_current i old flag_index s)
  unfolding set_flag participation_of with_participation shared
  set_flag-IsConsistent true i old flag_index s h =
      ground
        (arith, length-set s.current_epoch_participation i (add_flag old flag_index), h.shared_is)
  set_flag-IsConsistent false i old flag_index s h =
      ground
        (arith, length-set s.previous_epoch_participation i (add_flag old flag_index), h.shared_is)

module _ (env : Env) {k : Shape} where
  check_timing-IsConsistent :
      (a : Attestation) (epoch : Epoch) (valid : Bool)
      → Keeps (IsConsistent k) (on_shared (Phase0.check_timing env a epoch valid))
  check_timing-IsConsistent a epoch valid =
      on_shared-IsConsistent _ (check_timing-HasShape env a epoch valid)
        (λ n. check_timing-HasSize env a epoch valid)

  reward_flag-IsConsistent :
      (is_current : Bool) (flags : List ℕ) (i flag_index weight numerator : ℕ)
      → Keeps (IsConsistent k) (reward_flag env is_current flags i flag_index weight numerator)
  unfolding reward_flag
  reward_flag-IsConsistent is_current flags i flag_index weight numerator =
      search (keeps_rules, Keeps-modify, set_flag-IsConsistent) depth 12

  reward_flags-IsConsistent :
      (is_current : Bool) (flags : List ℕ) (i : ℕ) (weights : List ℕ) (flag_index numerator : ℕ)
      → Keeps (IsConsistent k) (reward_flags env is_current flags i weights flag_index numerator)
  unfolding reward_flags
  reward_flags-IsConsistent is_current flags i [] flag_index numerator = Keeps-pure _
  reward_flags-IsConsistent is_current flags i (weight ∷ weights) flag_index numerator =
      Keeps-bind _ _ (reward_flag-IsConsistent is_current flags i flag_index weight numerator)
        (λ more. reward_flags-IsConsistent is_current flags i weights _ more)

  reward_attesters-IsConsistent :
      (is_current : Bool) (flags indices : List ℕ) (numerator : ℕ)
      → Keeps (IsConsistent k) (reward_attesters env is_current flags indices numerator)
  unfolding reward_attesters
  reward_attesters-IsConsistent is_current flags [] numerator = Keeps-pure _
  reward_attesters-IsConsistent is_current flags (i ∷ indices) numerator =
      Keeps-bind _ _ (reward_flags-IsConsistent is_current flags i _ _ numerator)
        (λ more. reward_attesters-IsConsistent is_current flags indices more)

  check_members-IsConsistent : (a : Attestation) → Keeps (IsConsistent k) (check_members env a)
  unfolding check_members
  check_members-IsConsistent a = search keeps_rules depth 12

  apply_attestation-IsConsistent :
      (is_current : Bool) (flags indices : List ℕ)
      → Keeps (IsConsistent k) (apply_attestation env is_current flags indices)
  unfolding apply_attestation
  apply_attestation-IsConsistent is_current flags indices =
      search (keeps_rules, reward_attesters-IsConsistent, increase_balance-IsConsistent) depth 9

  pub process_attestation-IsConsistent :
      (a : Attestation) → Keeps (IsConsistent k) (process_attestation env a)
  unfolding process_attestation
  process_attestation-IsConsistent a =
      search
        (
          keeps_rules, check_timing-IsConsistent, check_members-IsConsistent,
          apply_attestation-IsConsistent,
        )
        depth 16
