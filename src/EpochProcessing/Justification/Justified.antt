-- ===== src/EpochProcessing/Justification/Justified.antt =====
-- What `weigh_justification_and_finalization` justifies.
use ethereum_consensus.Prelude.{
  ◌≡◌, ◌⊎◌, refl, true, false, inl, inr, inl, inr, Bool, ◌||◌, leb, wrapping_mul,
}
use ethereum_consensus.Types.{Epoch, Gwei, Checkpoint, BeaconState}
use ethereum_consensus.Outcome.{ok}
use ethereum_consensus.Env.{Env}
use ethereum_consensus.Helpers.Epochs.{get_current_epoch, get_previous_epoch}
use ethereum_consensus.Helpers.Accessors.{get_block_root}
use ethereum_consensus.EpochProcessing.Justification.{
  begin_justification, shift_bits, justify_previous, justify_current, with_finalized,
  weigh_justification_and_finalization,
}
use ethereum_consensus.EpochProcessing.Justification.Weighing.{
  justified, finalize_in, weigh-justified,
}

-- What is justified after the two tests, given whether the balances of the previous epoch `p` and
-- of the current epoch `c` are enough: `s'` is the state after `s`.
abbrev pub JustifiedBy : Env → (a b : Bool) → (p c : Epoch) → BeaconState → BeaconState → Type 0
JustifiedBy env a b p c s s' =
    (((b ≡ true)
        × (s'.current_justified_checkpoint.epoch ≡ c)
        × (get_block_root env c s ≡ ok s'.current_justified_checkpoint.root))
      ⊎ ((b ≡ false)
          × (a ≡ true)
          × (s'.current_justified_checkpoint.epoch ≡ p)
          × (get_block_root env p s ≡ ok s'.current_justified_checkpoint.root))
      ⊎ ((b ≡ false)
          × (a ≡ false)
          × (s'.current_justified_checkpoint ≡ s.current_justified_checkpoint)))
    × (s'.previous_justified_checkpoint ≡ s.current_justified_checkpoint)
    × (s'.justification_bits.bit_0 ≡ b)
    × (s'.justification_bits.bit_1 ≡ (a || s.justification_bits.bit_0))
    × (s'.justification_bits.bit_2 ≡ s.justification_bits.bit_1)
    × (s'.justification_bits.bit_3 ≡ s.justification_bits.bit_2)

justified-JustifiedBy :
    (env : Env) (a b : Bool) (previous current : Checkpoint) (s : BeaconState)
    → (a ≡ true → get_block_root env previous.epoch s ≡ ok previous.root)
    → (b ≡ true → get_block_root env current.epoch s ≡ ok current.root)
    → JustifiedBy env a b previous.epoch current.epoch s
        (finalize_in s current.epoch (justified a b previous current s))
unfolding justified finalize_in begin_justification shift_bits justify_previous justify_current
    with_finalized
justified-JustifiedBy env true true previous current s read_1 read_2 =
    (inl (refl, refl, read_2 refl), refl, refl, refl, refl, refl)
justified-JustifiedBy env false true previous current s read_1 read_2 =
    (inl (refl, refl, read_2 refl), refl, refl, refl, refl, refl)
justified-JustifiedBy env true false previous current s read_1 read_2 =
    (inr (inl (refl, refl, refl, read_1 refl)), refl, refl, refl, refl, refl)
justified-JustifiedBy env false false previous current s read_1 read_2 =
    (inr (inr (refl, refl, refl)), refl, refl, refl, refl, refl)

module _ (env : Env) (total previous_target current_target : Gwei) where
  abbrev enough : Gwei → Bool
  enough target = leb (wrapping_mul total 2) (wrapping_mul target 3)

  -- After a successful weighing the current justified checkpoint is the current epoch with the block
  -- root of that epoch if its target balance is at least two thirds of the total, else the previous
  -- epoch with its block root if that one's is, else the old one, epoch and root. The previous
  -- justified checkpoint is the old current one. The bit of the current epoch says whether its
  -- balance is enough, that of the previous epoch whether its balance is or the bit was set before,
  -- and the two older bits have moved on. (The products are those of 64-bit words.)
  pub weigh-justifies :
      (s s' : BeaconState) (p c : Epoch)
      → get_previous_epoch env s ≡ ok p
      → get_current_epoch env s ≡ ok c
      → weigh_justification_and_finalization env total previous_target current_target s
        ≡ (ok tt, s')
      → JustifiedBy env
          (leb (wrapping_mul total 2) (wrapping_mul previous_target 3))
          (leb (wrapping_mul total 2) (wrapping_mul current_target 3))
          p
          c
          s
          s'
  weigh-justifies s s' p c p_is c_is e =
      let (previous, current, p_is', c_is', read_1, read_2, result) =
        weigh-justified env total previous_target current_target s s' e in
      let same_p : previous.epoch ≡ p = cc in
      let same_c : current.epoch ≡ c = cc in
      rw (result, ← same_p, ← same_c)
        (justified-JustifiedBy env (enough previous_target) (enough current_target) previous current
          s read_1 read_2)
