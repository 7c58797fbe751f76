-- ===== src/EpochProcessing/Justification/Finality.antt =====
-- What `weigh_justification_and_finalization` finalizes.
use ethereum_consensus.Prelude.{
  ◌≤◌, ◌≡◌, ◌⊎◌, refl, true, false, inl, inr, sym, ◌∙◌, inl, inr, Bool, arith, leb, wrapping_mul,
  wrapping_add,
}
use mathlib.Core.Path.{subst}
use ethereum_consensus.Types.{Epoch, Gwei, Checkpoint, JustificationBits, BeaconState}
use ethereum_consensus.Outcome.{ok}
use ethereum_consensus.Env.{Env}
use ethereum_consensus.Helpers.Epochs.{get_current_epoch, get_previous_epoch}
use ethereum_consensus.EpochProcessing.Justification.{
  begin_justification, justify_previous, justify_current, finalize, with_finalized,
  weigh_justification_and_finalization,
}
use ethereum_consensus.EpochProcessing.Justification.Weighing.{
  justified, finalize_in, weigh-justified,
}

-- Whichever rules fire, what is final afterwards lies between what was final and the old current
-- checkpoint.
finalize_bounds :
    (bits : JustificationBits) (epoch : Epoch) (old_previous old_current finalized : Checkpoint)
    → finalized.epoch ≤ old_previous.epoch
    → old_previous.epoch ≤ old_current.epoch
    → (finalized.epoch ≤ (finalize bits epoch old_previous old_current finalized).epoch)
      × ((finalize bits epoch old_previous old_current finalized).epoch ≤ old_current.epoch)
unfolding finalize
finalize_bounds bits epoch old_previous old_current finalized h k = ground arith

justified-ordered :
    (a b : Bool) (previous current : Checkpoint) (s : BeaconState) {c : Epoch}
    → previous.epoch ≤ current.epoch
    → current.epoch ≤ c
    → s.finalized_checkpoint.epoch ≤ s.previous_justified_checkpoint.epoch
    → s.previous_justified_checkpoint.epoch ≤ s.current_justified_checkpoint.epoch
    → s.current_justified_checkpoint.epoch ≤ previous.epoch
    → let s' = finalize_in s current.epoch (justified a b previous current s) in
      (s.finalized_checkpoint.epoch ≤ s'.finalized_checkpoint.epoch)
      × (s'.finalized_checkpoint.epoch ≤ s'.previous_justified_checkpoint.epoch)
      × (s'.previous_justified_checkpoint.epoch ≤ s'.current_justified_checkpoint.epoch)
      × (s'.current_justified_checkpoint.epoch ≤ c)
unfolding justified finalize_in begin_justification justify_previous justify_current with_finalized
justified-ordered a b previous current s pc cc fp pq qp =
    let j = justified a b previous current s in
    ground (
      arith,
      finalize_bounds j.justification_bits current.epoch s.previous_justified_checkpoint
          s.current_justified_checkpoint j.finalized_checkpoint,
    )

module _ (env : Env) (total previous_target current_target : Gwei) where
  abbrev enough : Gwei → Bool
  enough target = leb (wrapping_mul total 2) (wrapping_mul target 3)

  -- If the three checkpoints are in order and none is later than the previous epoch, then after a
  -- successful weighing they are in order, none is later than the current epoch, and the finalized
  -- checkpoint is no earlier than it was.
  pub weigh-ordered :
      (s s' : BeaconState) (p c : Epoch)
      → get_previous_epoch env s ≡ ok p
      → get_current_epoch env s ≡ ok c
      → p ≤ c
      → s.finalized_checkpoint.epoch ≤ s.previous_justified_checkpoint.epoch
      → s.previous_justified_checkpoint.epoch ≤ s.current_justified_checkpoint.epoch
      → s.current_justified_checkpoint.epoch ≤ p
      → weigh_justification_and_finalization env total previous_target current_target s
        ≡ (ok tt, s')
      → (s.finalized_checkpoint.epoch ≤ s'.finalized_checkpoint.epoch)
        × (s'.finalized_checkpoint.epoch ≤ s'.previous_justified_checkpoint.epoch)
        × (s'.previous_justified_checkpoint.epoch ≤ s'.current_justified_checkpoint.epoch)
        × (s'.current_justified_checkpoint.epoch ≤ c)
  weigh-ordered s s' p c p_is c_is pc fp pq qp e =
      let (previous, current, p_is', c_is', _, _, result) =
        weigh-justified env total previous_target current_target s s' e in
      let same_p : previous.epoch ≡ p = cc in
      let same_c : current.epoch ≡ c = cc in
      rw result (
        justified-ordered (enough previous_target) (enough current_target) previous current s
          (omega arith) (omega arith) fp pq (omega arith))

-- A checkpoint is finalized from the old checkpoint `source` if that is `distance` epochs back.
finalize-cases :
    (bits : JustificationBits) (epoch : Epoch) (old_previous old_current finalized : Checkpoint)
    → (finalize bits epoch old_previous old_current finalized ≡ finalized)
      ⊎ ((finalize bits epoch old_previous old_current finalized ≡ old_previous)
          × (bits.bit_1 ≡ true)
          × (bits.bit_2 ≡ true)
          × ((wrapping_add old_previous.epoch 2 ≡ epoch)
              ⊎ ((wrapping_add old_previous.epoch 3 ≡ epoch) × (bits.bit_3 ≡ true))))
      ⊎ ((finalize bits epoch old_previous old_current finalized ≡ old_current)
          × (bits.bit_0 ≡ true)
          × (bits.bit_1 ≡ true)
          × ((wrapping_add old_current.epoch 1 ≡ epoch)
              ⊎ ((wrapping_add old_current.epoch 2 ≡ epoch) × (bits.bit_2 ≡ true))))
unfolding finalize
finalize-cases bits epoch old_previous old_current finalized = ground arith

justified-finalized :
    (a b : Bool) (previous current : Checkpoint) (s : BeaconState)
    → (justified a b previous current s).finalized_checkpoint ≡ s.finalized_checkpoint
unfolding justified begin_justification justify_previous justify_current
justified-finalized true true previous current s = refl
justified-finalized true false previous current s = refl
justified-finalized false true previous current s = refl
justified-finalized false false previous current s = refl

-- What `weigh_justification_and_finalization` may finalize: `s'` is the state after it.
abbrev pub FinalizedBy : Epoch → BeaconState → BeaconState → Type 0
FinalizedBy c s s' =
    (s'.finalized_checkpoint ≡ s.finalized_checkpoint)
    ⊎ ((s'.finalized_checkpoint ≡ s.previous_justified_checkpoint)
        × (s'.justification_bits.bit_1 ≡ true)
        × (s'.justification_bits.bit_2 ≡ true)
        × ((wrapping_add s.previous_justified_checkpoint.epoch 2 ≡ c)
            ⊎ ((wrapping_add s.previous_justified_checkpoint.epoch 3 ≡ c)
                × (s'.justification_bits.bit_3 ≡ true))))
    ⊎ ((s'.finalized_checkpoint ≡ s.current_justified_checkpoint)
        × (s'.justification_bits.bit_0 ≡ true)
        × (s'.justification_bits.bit_1 ≡ true)
        × ((wrapping_add s.current_justified_checkpoint.epoch 1 ≡ c)
            ⊎ ((wrapping_add s.current_justified_checkpoint.epoch 2 ≡ c)
                × (s'.justification_bits.bit_2 ≡ true))))

justified-FinalizedBy :
    (a b : Bool) (previous current : Checkpoint) (s : BeaconState) {c : Epoch}
    → current.epoch ≡ c
    → FinalizedBy c s (finalize_in s current.epoch (justified a b previous current s))
unfolding finalize_in with_finalized
justified-FinalizedBy a b previous current s same_c =
    let j = justified a b previous current s in
    let cases =
      finalize-cases j.justification_bits current.epoch s.previous_justified_checkpoint
        s.current_justified_checkpoint j.finalized_checkpoint in
    rw (← same_c) (elim cases [
      | inl same ↦ inl (same ∙ justified-finalized a b previous current s)
      | inr moved ↦ inr moved
    ])

-- After a successful weighing the finalized checkpoint is the one it was, or the old previous
-- justified one or the old current justified one. It is the old previous one only if that is two or
-- three epochs before the current epoch, and the bits of the two epochs before the current one are
-- set, and with three that of the epoch before them. It is the old current one only if that is one
-- or two epochs before the current epoch, and the bits of the current epoch and of the one before
-- it are set, and with two that of the epoch before them. (The sums are those of 64-bit words.)
pub weigh-finalizes :
    (env : Env) (total previous_target current_target : Gwei) (s s' : BeaconState) (c : Epoch)
    → get_current_epoch env s ≡ ok c
    → weigh_justification_and_finalization env total previous_target current_target s ≡ (ok tt, s')
    → FinalizedBy c s s'
weigh-finalizes env total previous_target current_target s s' c c_is e =
    let (previous, current, p_is, c_is', _, _, result) =
      weigh-justified env total previous_target current_target s s' e in
    let same_c : current.epoch ≡ c = cc in
    subst (FinalizedBy c s) (sym result) (justified-FinalizedBy _ _ previous current s same_c)
