-- ===== src/Helpers/Committees/Proposer.antt =====
-- Who can be the proposer of a slot.
use ethereum_consensus.Prelude.{
  ℕ, zero, suc, ◌+◌, ◌≡◌, ◌∙◌, ap, refl, inl, inr, Bool, true, List, [], ◌∷◌, ◌++◌, some, length,
  get_elem?, indices_where, is_empty, arith, Bool-cases, wrapping_add,
}
use mathlib.Core.Path.{subst}
use ethereum_consensus.Prelude.Bytes.{Bytes, to_le_bytes}
use ethereum_consensus.Types.{Epoch, ValidatorIndex, Validator, BeaconState, beacon_proposer}
use ethereum_consensus.Errors.{collection_cannot_be_empty}
use ethereum_consensus.Outcome.{ok, rem, fail_if, ok-injective, unwrap-eq-ok, >>=-eq-ok}
use ethereum_consensus.Action.{fault≢ok}
use ethereum_consensus.Env.{Env}
use ethereum_consensus.Helpers.Predicates.{is_active_validator}
use ethereum_consensus.Helpers.Epochs.{get_current_epoch}
use ethereum_consensus.Helpers.Accessors.{get_active_validator_indices, get_seed}
use ethereum_consensus.Helpers.Shuffling.{compute_shuffled_index}
use ethereum_consensus.Helpers.Committees.{
  candidate_at, is_accepted, proposer_loop, compute_proposer_index, get_beacon_proposer_index,
}

-- An index, counted from `from`, is that of an element that passes the test.
abbrev pub Listed : (Validator → Bool) → ℕ → List Validator → ℕ → Type 0
Listed p from xs i =
    (j : ℕ) × (x : Validator) × (i ≡ from + j) × (get_elem? xs j ≡ some x) × (p x ≡ true)

later-Listed :
    (p : Validator → Bool) (from : ℕ) (x : Validator) (xs : List Validator) (i : ℕ)
    → Listed p (suc from) xs i
    → Listed p from (x ∷ xs) i
later-Listed p from x xs i (j, y, place, found, passes) = (suc j, y, omega arith, found, passes)

pub indices_where-Listed :
    (p : Validator → Bool) (from : ℕ) (xs : List Validator) (k : ℕ) {i : ℕ}
    → get_elem? (indices_where p from xs) k ≡ some i
    → Listed p from xs i
unfolding indices_where
indices_where-Listed p from [] k h = cc
indices_where-Listed p from (x ∷ xs) zero {i} h = elim (Bool-cases (p x)) [
  | inl passes ↦
      let here : some from ≡ some i = rw passes at h in
      let same : from ≡ i = cc in (0, x, omega arith, refl, passes)
  | inr fails ↦
      later-Listed p from x xs i (indices_where-Listed p (suc from) xs zero (rw fails at h))
]
indices_where-Listed p from (x ∷ xs) (suc k) {i} h = elim (Bool-cases (p x)) [
  | inl passes ↦
      later-Listed p from x xs i (indices_where-Listed p (suc from) xs k (rw passes at h))
  | inr fails ↦
      later-Listed p from x xs i (indices_where-Listed p (suc from) xs (suc k) (rw fails at h))
]

module _ (env : Env) where
  pub candidate_at-member :
      (indices : List ValidatorIndex) (seed : Bytes) (i : ℕ) (s : BeaconState) {c : ValidatorIndex}
      → candidate_at env indices seed i s ≡ ok c
      → (k : ℕ) × (get_elem? indices k ≡ some c)
  unfolding candidate_at
  candidate_at-member indices seed i s h =
      let (position, _, e₁) = >>=-eq-ok (rem i (length indices)) _ h in
      let (shuffled, _, e₂) =
        >>=-eq-ok (compute_shuffled_index env seed (length indices) position) _ e₁ in
      (shuffled, unwrap-eq-ok _ e₂)

  proposer_loop-member :
      (fuel : ℕ) (indices : List ValidatorIndex) (seed : Bytes) (i : ℕ) (s : BeaconState)
      {c : ValidatorIndex}
      → proposer_loop env fuel indices seed i s ≡ ok c
      → (k : ℕ) × (get_elem? indices k ≡ some c)
  unfolding proposer_loop
  proposer_loop-member zero indices seed i s h = absurd (fault≢ok h)
  proposer_loop-member (suc fuel) indices seed i s {c} h =
      let (candidate, at_i, e₁) = >>=-eq-ok (candidate_at env indices seed i s) _ h in
      let (accepted, _, e₂) = >>=-eq-ok (is_accepted env candidate seed i s) _ e₁ in
      elim (Bool-cases accepted) [
        | inl taken ↦
            let here : ok candidate ≡ ok c = rw taken at e₂ in
            let (k, found) = candidate_at-member indices seed i s at_i in
            (k, found ∙ ap some (ok-injective here))
        | inr passed ↦ proposer_loop-member fuel indices seed (wrapping_add i 1) s (rw passed at e₂)
      ]

  -- If a state has a proposer, it is a validator of the registry that is active in the epoch of the
  -- state.
  pub get_beacon_proposer_index-active :
      (s : BeaconState) (i : ValidatorIndex)
      → get_beacon_proposer_index env s ≡ ok i
      → (epoch : Epoch) × (v : Validator) × (get_current_epoch env s ≡ ok epoch)
        × (get_elem? s.validators i ≡ some v)
        × (is_active_validator v epoch ≡ true)
  unfolding get_beacon_proposer_index compute_proposer_index get_active_validator_indices
  get_beacon_proposer_index-active s i h =
      let (epoch, epoch_is, e₁) = >>=-eq-ok (get_current_epoch env s) _ h in
      let (epoch_seed, _, e₂) = >>=-eq-ok (get_seed env epoch beacon_proposer s) _ e₁ in
      let indices = get_active_validator_indices epoch s in
      let seed = env.externals.hash (epoch_seed ++ to_le_bytes 8 s.slot) in
      let (_, _, e₃) = >>=-eq-ok (fail_if (is_empty indices) collection_cannot_be_empty) _ e₂ in
      let (k, member) = proposer_loop-member env.proposer_fuel indices seed 0 s e₃ in
      let (j, v, place, found, active) = indices_where-Listed _ 0 s.validators k member in
      let same : j ≡ i = omega arith in
      (epoch, v, epoch_is, subst (λ n. get_elem? s.validators n ≡ some v) same found, active)
