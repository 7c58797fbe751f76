-- ===== src/Helpers/Shuffling.antt =====
-- ethereum-consensus/src/phase0/helpers.rs: `compute_shuffled_index`, the swap-or-not shuffle. A
-- round is a function of its own, and the `for` loop recurs on the rounds that are left.
pub mod Bijection
pub mod Rounds
use ethereum_consensus.Prelude.{
  ℕ, zero, suc, ◌/◌, ◌%◌, ◌^◌, [], ◌∷◌, ◌++◌, length, take, max, leb, ◌==◌, if◌then◌else◌,
  wrapping_add, wrapping_sub,
}
use ethereum_consensus.Prelude.Bytes.{Bytes, to_le_bytes, from_le_bytes}
use ethereum_consensus.Errors.{invalid_shuffling_index}
use ethereum_consensus.Outcome.{Outcome, ok, err, fault, panic, index, ◌>>=◌}
use ethereum_consensus.Env.{Env}

module _ (env : Env) (seed : Bytes) (index_count : ℕ) where
  open env use {context, externals}

  -- The first eight bytes of a digest as an integer; `try_into().unwrap()` wants all eight.
  unfoldable pub compute_pivot : ℕ → Outcome ℕ
  compute_pivot current_round =
      let pivot_bytes = take 8 (externals.hash (seed ++ (current_round % 256) ∷ [])) in
      if length pivot_bytes == 8 then ok (from_le_bytes pivot_bytes % index_count) else fault panic

  -- The bit of the round's source that belongs to a position.
  unfoldable pub decision_bit : ℕ → ℕ → Outcome ℕ
  decision_bit current_round position = do
    let position_bytes = to_le_bytes 4 (position / 256 % 2 ^ 32)
    let source = externals.hash (seed ++ (current_round % 256) ∷ position_bytes)
    byte ← index source (position % 256 / 8)
    ok (byte / 2 ^ (position % 8) % 2)

  unfoldable pub flip_of : ℕ → ℕ → ℕ
  flip_of pivot i = wrapping_sub (wrapping_add pivot index_count) i % index_count

  -- One round of the loop.
  unfoldable pub shuffle_round : ℕ → ℕ → Outcome ℕ
  shuffle_round current_round i = do
    pivot ← compute_pivot current_round
    let flip = flip_of pivot i
    bit ← decision_bit current_round (max i flip)
    ok (if bit == 0 then i else flip)

  -- `for current_round in 0..context.shuffle_round_count`, from a round and with those left.
  unfoldable pub shuffle_rounds : ℕ → ℕ → ℕ → Outcome ℕ
  shuffle_rounds zero current_round i = ok i
  shuffle_rounds (suc left) current_round i = do
    i' ← shuffle_round current_round i
    shuffle_rounds left (suc current_round) i'

  unfoldable pub compute_shuffled_index : ℕ → Outcome ℕ
  compute_shuffled_index i =
      if leb index_count i
      then err (invalid_shuffling_index i index_count)
      else shuffle_rounds context.shuffle_round_count 0 i
