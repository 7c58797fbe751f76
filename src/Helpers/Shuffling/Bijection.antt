-- ===== src/Helpers/Shuffling/Bijection.antt =====
-- The swap-or-not shuffle is a bijection of the indices below the count: it succeeds in range, it
-- is one to one, and it reaches every index.
use ethereum_consensus.Prelude.{ℕ, zero, suc, ◌<◌, ◌^◌, ◌≡◌, refl, ◌∙◌, sym, ap, arith, lt→leb}
use ethereum_consensus.Prelude.Bytes.{Bytes}
use ethereum_consensus.Outcome.{ok}
use ethereum_consensus.Env.{Env, IsSha256}
use ethereum_consensus.Helpers.Shuffling.{shuffle_round, shuffle_rounds, compute_shuffled_index}
use ethereum_consensus.Helpers.Shuffling.Rounds.{shuffle_round_involutive}

ok-injective : {A : Type 0} {a b : A} → ok a ≡ ok b → a ≡ b
ok-injective e = cc

module _ (env : Env) (sha : IsSha256 env.externals.hash) (seed : Bytes) (n : ℕ)
    (small : n < 2 ^ 63) where
  round_back :
      (r i : ℕ)
      → i < n
      → (j : ℕ) × (shuffle_round env seed n r i ≡ ok j)
        × (j < n)
        × (shuffle_round env seed n r j ≡ ok i)
  round_back r i h = shuffle_round_involutive env sha seed n (omega arith) small r i h

  rounds_total :
      (left r i : ℕ) → i < n → (j : ℕ) × (shuffle_rounds env seed n left r i ≡ ok j) × (j < n)
  unfolding shuffle_rounds
  rounds_total zero r i h = (i, refl, h)
  rounds_total (suc left) r i h =
      let (i', step, h', _) = round_back r i h in
      let (j, rest, hj) = rounds_total left (suc r) i' h' in (j, rw step rest, hj)

  rounds_injective :
      (left r i k : ℕ) {j : ℕ}
      → i < n
      → k < n
      → shuffle_rounds env seed n left r i ≡ ok j
      → shuffle_rounds env seed n left r k ≡ ok j
      → i ≡ k
  unfolding shuffle_rounds
  rounds_injective zero r i k hi hk p q = ok-injective (p ∙ sym q)
  rounds_injective (suc left) r i k hi hk p q =
      let (i', step_i, hi', back_i) = round_back r i hi in
      let (k', step_k, hk', back_k) = round_back r k hk in
      let same = rounds_injective left (suc r) i' k' hi' hk' (rw step_i at p) (rw step_k at q) in
      ok-injective (sym back_i ∙ ap (shuffle_round env seed n r) same ∙ back_k)

  rounds_surjective :
      (left r j : ℕ) → j < n → (i : ℕ) × (i < n) × (shuffle_rounds env seed n left r i ≡ ok j)
  unfolding shuffle_rounds
  rounds_surjective zero r j h = (j, h, refl)
  rounds_surjective (suc left) r j h =
      let (i', h', rest) = rounds_surjective left (suc r) j h in
      let (i, _, hi, back) = round_back r i' h' in (i, hi, rw back rest)

  compute-eq-rounds :
      (i : ℕ)
      → i < n
      → compute_shuffled_index env seed n i
        ≡ shuffle_rounds env seed n env.context.shuffle_round_count 0 i
  unfolding compute_shuffled_index
  compute-eq-rounds i h = rw (lt→leb n i h)

  -- For a hash of thirty-two bytes and fewer than 2^63 indices, the shuffle of an index below the
  -- count returns an index below the count.
  pub compute_shuffled_index_total :
      (i : ℕ) → i < n → (j : ℕ) × (compute_shuffled_index env seed n i ≡ ok j) × (j < n)
  compute_shuffled_index_total i h =
      let (j, e, hj) = rounds_total env.context.shuffle_round_count 0 i h in
      (j, compute-eq-rounds i h ∙ e, hj)

  -- For a hash of thirty-two bytes and fewer than 2^63 indices, two indices below the count that
  -- are shuffled to the same index are the same.
  pub compute_shuffled_index_injective :
      (i k : ℕ) {j : ℕ}
      → i < n
      → k < n
      → compute_shuffled_index env seed n i ≡ ok j
      → compute_shuffled_index env seed n k ≡ ok j
      → i ≡ k
  compute_shuffled_index_injective i k hi hk p q =
      rounds_injective env.context.shuffle_round_count 0 i k hi hk
        (sym (compute-eq-rounds i hi) ∙ p) (sym (compute-eq-rounds k hk) ∙ q)

  -- For a hash of thirty-two bytes and fewer than 2^63 indices, every index below the count is the
  -- shuffle of some index below the count.
  pub compute_shuffled_index_surjective :
      (j : ℕ) → j < n → (i : ℕ) × (i < n) × (compute_shuffled_index env seed n i ≡ ok j)
  compute_shuffled_index_surjective j h =
      let (i, hi, e) = rounds_surjective env.context.shuffle_round_count 0 j h in
      (i, hi, compute-eq-rounds i hi ∙ e)
