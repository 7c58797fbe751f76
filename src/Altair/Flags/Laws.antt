-- ===== src/Altair/Flags/Laws.antt =====
-- The laws of the two operations on flags.
use ethereum_consensus.Prelude.{
  ℕ, zero, suc, ◌<◌, ◌≡◌, refl, Bool, true, false, not, ◌&&◌, ◌||◌, ◌==◌, arith,
}
use ethereum_consensus.Types.Altair.{ParticipationFlags}
use ethereum_consensus.Altair.Flags.{flag_bit, add_flag, has_flag}

-- A test of all numbers below a bound, by evaluation.
abbrev holds_below : ℕ → (ℕ → Bool) → Bool
holds_below zero test = true
holds_below (suc n) test = test n && holds_below n test

holds_below-at :
    (n : ℕ) (test : ℕ → Bool) (x : ℕ) → holds_below n test ≡ true → x < n → test x ≡ true
holds_below-at zero test x h lt = absurd (omega arith)
holds_below-at (suc n) test x h lt = ground (arith, holds_below-at n test x)

abbrev agrees : Bool → Bool → Bool
agrees true b = b
agrees false b = not b

agrees-eq : (a b : Bool) → agrees a b ≡ true → a ≡ b
agrees-eq true true h = refl
agrees-eq true false h = cc
agrees-eq false true h = cc
agrees-eq false false h = refl

abbrev law_at : ℕ → ℕ → ℕ → Bool
law_at i j flags = agrees (has_flag (add_flag flags i) j) (i == j || has_flag flags j)

law_table : holds_below 3 (λ i. holds_below 3 (λ j. holds_below 256 (law_at i j))) ≡ true
unfolding has_flag add_flag flag_bit
law_table = refl

-- If the flags are a byte and the two indices are those of the three flags of altair, then a flag
-- is set after `add_flag` exactly if it is the added one or was set before.
pub has_flag-add_flag :
    (flags : ParticipationFlags) (i j : ℕ)
    → flags < 256
    → i < 3
    → j < 3
    → has_flag (add_flag flags i) j ≡ (i == j || has_flag flags j)
has_flag-add_flag flags i j byte first second =
    let at_i =
      holds_below-at 3 (λ i. holds_below 3 (λ j. holds_below 256 (law_at i j))) i law_table first in
    let at_j = holds_below-at 3 (λ j. holds_below 256 (law_at i j)) j at_i second in
    agrees-eq _ _ (holds_below-at 256 (law_at i j) flags at_j byte)
