-- ===== src/Altair/Attestations/Repeated.antt =====
-- A repeated attestation: its flags are set already.
use ethereum_consensus.Prelude.{
  ℕ, suc, ◌≡◌, refl, inl, inr, true, Bool, List, [], ◌∷◌, some, All, get_elem?, Bool-cases,
}
use ethereum_consensus.Prelude.Sets.{contains}
use ethereum_consensus.Types.{ValidatorIndex}
use ethereum_consensus.Types.Altair.{ParticipationFlags, BeaconState, participation_flag_weights}
use ethereum_consensus.Outcome.{ok}
use ethereum_consensus.Action.{◌>>=◌}
use ethereum_consensus.Env.{Env}
use ethereum_consensus.Altair.Flags.{has_flag}
use ethereum_consensus.Altair.Attestations.{
  participation_of, reward_flag, reward_flags, reward_attesters,
}

-- A validator has each flag of a list.
abbrev pub HasFlags : List ParticipationFlags → List ℕ → ValidatorIndex → Type 0
HasFlags participation flag_indices i =
    (old : ParticipationFlags) × (get_elem? participation i ≡ some old)
    × ((f : ℕ) → contains f flag_indices ≡ true → has_flag old f ≡ true)

module _ (env : Env) (is_current : Bool) (flag_indices : List ℕ) (s : BeaconState) where
  reward_flag-repeated :
      (i flag_index weight numerator : ℕ)
      → HasFlags (participation_of is_current s) flag_indices i
      → reward_flag env is_current flag_indices i flag_index weight numerator s ≡ (ok numerator, s)
  unfolding reward_flag ◌>>=◌
  reward_flag-repeated i flag_index weight numerator (old, found, set_already) =
      elim (Bool-cases (contains flag_index flag_indices)) [
        | inl earned ↦ rw (earned, found, set_already flag_index earned) refl
        | inr other ↦ rw other refl
      ]

  reward_flags-repeated :
      (i : ValidatorIndex) (weights : List ℕ) (flag_index numerator : ℕ)
      → HasFlags (participation_of is_current s) flag_indices i
      → reward_flags env is_current flag_indices i weights flag_index numerator s
        ≡ (ok numerator, s)
  unfolding reward_flags ◌>>=◌
  reward_flags-repeated i [] flag_index numerator has = refl
  reward_flags-repeated i (weight ∷ weights) flag_index numerator has =
      rw (reward_flag-repeated i flag_index weight numerator has)
        (reward_flags-repeated i weights (suc flag_index) numerator has)

  -- If every attester has the flags of the attestation already, then going over the attesters again
  -- adds nothing to what the proposer is paid for, and leaves the state as it is.
  pub reward_attesters-repeated :
      (indices : List ValidatorIndex) (numerator : ℕ)
      → All (HasFlags (participation_of is_current s) flag_indices) indices
      → reward_attesters env is_current flag_indices indices numerator s ≡ (ok numerator, s)
  unfolding reward_attesters ◌>>=◌
  reward_attesters-repeated [] numerator all = refl
  reward_attesters-repeated (i ∷ indices) numerator (has, rest) =
      rw (reward_flags-repeated i participation_flag_weights 0 numerator has)
        (reward_attesters-repeated indices numerator rest)
