-- ===== src/Helpers/Shuffling/Rounds.antt =====
-- One round of the swap-or-not shuffle: it stays in range, and undoes itself.
use ethereum_consensus.Prelude.{
  ℕ, ◌+◌, ◌-◌, ◌/◌, ◌%◌, ◌^◌, ◌≤◌, ◌<◌, ◌≡◌, ◌∙◌, inl, inr, [], ◌∷◌, ◌++◌, arith, length, take, max,
  length-take, get_elem?-some, Bool-cases, ◌==◌, wrapping_add, wrapping_sub,
}
use native.Mathlib.Nat.{mod-eq_of_lt, mod-lt, mod-eq-sub-mod, max_comm}
use native.Mathlib.Decide.{dec_le}
use ethereum_consensus.Prelude.Bytes.{Bytes, from_le_bytes, to_le_bytes}
use ethereum_consensus.Outcome.{ok}
use ethereum_consensus.Env.{Env, IsSha256}
use ethereum_consensus.Helpers.Shuffling.{compute_pivot, decision_bit, flip_of, shuffle_round}

module _ (env : Env) (seed : Bytes) (n : ℕ) (small : n < 2 ^ 63) where
  unwrapped : (p i : ℕ) → p < n → i < n → wrapping_sub (wrapping_add p n) i ≡ p + n - i
  unwrapped p i hp h = omega arith

  flip_of_below : (p i : ℕ) → p < n → i ≤ p → flip_of env seed n p i ≡ p - i
  unfolding flip_of
  flip_of_below p i hp h = rw (unwrapped p i hp (omega arith)) (
      mod-eq-sub-mod {n = p + n - i} {m = n} (omega arith)
      ∙ mod-eq_of_lt (omega arith)
      ∙ omega arith)

  flip_of_above : (p i : ℕ) → p < i → i < n → flip_of env seed n p i ≡ p + n - i
  unfolding flip_of
  flip_of_above p i hp h = rw (unwrapped p i (omega arith) h) (mod-eq_of_lt (omega arith))

  pub flip_of_bound : (p i : ℕ) → p < n → i < n → flip_of env seed n p i < n
  flip_of_bound p i hp h = elim (dec_le i p) [
    | yes le ↦ omega (arith, flip_of_below p i hp le)
    | no gt ↦ omega (arith, flip_of_above p i (omega arith) h)
  ]

  pub flip_of_involutive :
      (p i : ℕ) → p < n → i < n → flip_of env seed n p (flip_of env seed n p i) ≡ i
  flip_of_involutive p i hp h = elim (dec_le i p) [
    | yes le ↦ rw (flip_of_below p i hp le) (flip_of_below p (p - i) hp (omega arith) ∙ omega arith)
    | no gt ↦
        rw (flip_of_above p i (omega arith) h)
          (flip_of_above p (p + n - i) (omega arith) (omega arith) ∙ omega arith)
  ]

module _ (env : Env) (sha : IsSha256 env.externals.hash) (seed : Bytes) (n : ℕ) (positive : 0 < n)
    (small : n < 2 ^ 63) where
  compute_pivot_total : (r : ℕ) → (p : ℕ) × (compute_pivot env seed n r ≡ ok p) × (p < n)
  unfolding compute_pivot
  compute_pivot_total r =
      let digest = env.externals.hash (seed ++ (r % 256) ∷ []) in
      let eight : length (take 8 digest) ≡ 8 =
        length-take 8 digest (omega (arith, sha.length_is (seed ++ (r % 256) ∷ []))) in
      (from_le_bytes (take 8 digest) % n, rw eight, mod-lt _ positive)

  decision_bit_total : (r position : ℕ) → (b : ℕ) × (decision_bit env seed n r position ≡ ok b)
  unfolding decision_bit
  decision_bit_total r position =
      let source =
        env.externals.hash (seed ++ (r % 256) ∷ to_le_bytes 4 (position / 256 % 2 ^ 32)) in
      let (byte, e) = get_elem?-some source (position % 256 / 8) (
        omega
          (arith, sha.length_is (seed ++ (r % 256) ∷ to_le_bytes 4 (position / 256 % 2 ^ 32)))) in
      (byte / 2 ^ (position % 8) % 2, rw e)

  -- The image of an index is in range, and the round takes it back.
  pub shuffle_round_involutive :
      (r i : ℕ)
      → i < n
      → (j : ℕ) × (shuffle_round env seed n r i ≡ ok j)
        × (j < n)
        × (shuffle_round env seed n r j ≡ ok i)
  unfolding shuffle_round
  shuffle_round_involutive r i h =
      let (p, pivot_is, hp) = compute_pivot_total r in
      let f = flip_of env seed n p i in
      let (b, bit_is) = decision_bit_total r (max i f) in
      let again = flip_of_involutive env seed n small p i hp h in
      let swapped = max_comm f i in
      elim (Bool-cases (b == 0)) [
        | inl stays ↦ (i, rw (pivot_is, bit_is, stays), h, rw (pivot_is, bit_is, stays))
        | inr moves ↦ (
          f,
          rw (pivot_is, bit_is, moves),
          flip_of_bound env seed n small p i hp h,
          rw (pivot_is, again, swapped, bit_is, moves),
        )
      ]
