-- ===== src/Altair/SyncCommittee/Members.antt =====
-- Who is in the next sync committee.
use ethereum_consensus.Prelude.{
  ℕ, zero, suc, ◌≡◌, ◌≤◌, inl, inr, true, List, [], ◌∷◌, ◌++◌, some, All, length, length-append,
  get_elem?, ltb, ltb→lt, arith, Bool-cases, wrapping_add,
}
use mathlib.Core.Path.{subst}
use ethereum_consensus.Prelude.Bytes.{Bytes}
use ethereum_consensus.Types.{Epoch, ValidatorIndex, Validator, sync_committee}
use ethereum_consensus.Types.Altair.{BeaconState}
use ethereum_consensus.Outcome.{ok, ok-injective, >>=-eq-ok}
use ethereum_consensus.Action.{fault≢ok}
use ethereum_consensus.Env.{Env}
use ethereum_consensus.Helpers.Predicates.{is_active_validator}
use ethereum_consensus.Helpers.Accessors as Accessors
use ethereum_consensus.Helpers.Committees.{candidate_at, is_accepted}
use ethereum_consensus.Helpers.Committees.Proposer.{indices_where-Listed, candidate_at-member}
use ethereum_consensus.Altair.Shared.{shared}
use ethereum_consensus.Altair.Spec.{get_active_validator_indices, get_current_epoch, get_seed}
use ethereum_consensus.Altair.SyncCommittee.{sync_committee_loop, get_next_sync_committee_indices}

abbrev Drawn : List ValidatorIndex → ValidatorIndex → Type 0
Drawn active i = (k : ℕ) × (get_elem? active k ≡ some i)

All-append : (P : ℕ → Type 0) (xs : List ℕ) (x : ℕ) → All P xs → P x → All P (xs ++ x ∷ [])
All-append P [] x all here = (here, tt)
All-append P (y ∷ ys) x (first, rest) here = (first, All-append P ys x rest here)

All-map : (P Q : ℕ → Type 0) (xs : List ℕ) → ((x : ℕ) → P x → Q x) → All P xs → All Q xs
All-map P Q [] f all = tt
All-map P Q (x ∷ xs) f (first, rest) = (f x first, All-map P Q xs f rest)

module _ (env : Env) (active : List ValidatorIndex) (seed : Bytes) (s : BeaconState) where
  open env use {context}

  sync_committee_loop-Drawn :
      (fuel i : ℕ) (members : List ValidatorIndex) {all : List ValidatorIndex}
      → length members ≤ context.sync_committee_size
      → All (Drawn active) members
      → sync_committee_loop env fuel active seed s i members ≡ ok all
      → (length all ≡ context.sync_committee_size) × All (Drawn active) all
  unfolding sync_committee_loop
  sync_committee_loop-Drawn zero i members {all} room drawn h =
      elim (Bool-cases (ltb (length members) context.sync_committee_size)) [
        | inl more ↦ absurd (fault≢ok (rw more at h))
        | inr full ↦
            let same : members ≡ all = ok-injective (rw full at h) in
            (
              subst (λ xs. length xs ≡ context.sync_committee_size) same (ground arith),
              subst (All (Drawn active)) same drawn,
            )
      ]
  sync_committee_loop-Drawn (suc fuel) i members {all} room drawn h =
      elim (Bool-cases (ltb (length members) context.sync_committee_size)) [
        | inl more ↦
            let (c, at_i, e₁) =
              >>=-eq-ok (candidate_at env active seed i (shared s)) _ (rw more at h) in
            let (accepted, _, e₂) = >>=-eq-ok (is_accepted env c seed i (shared s)) _ e₁ in
            elim (Bool-cases accepted) [
              | inl taken ↦
                  sync_committee_loop-Drawn fuel (wrapping_add i 1) (members ++ c ∷ [])
                    (omega (arith, ltb→lt _ _ more, length-append members (c ∷ [])))
                    (All-append (Drawn active) members c drawn
                      (candidate_at-member env active seed i (shared s) at_i))
                    (rw taken at e₂)
              | inr passed ↦
                  sync_committee_loop-Drawn fuel (wrapping_add i 1) members room drawn
                    (rw passed at e₂)
            ]
        | inr full ↦
            let same : members ≡ all = ok-injective (rw full at h) in
            (
              subst (λ xs. length xs ≡ context.sync_committee_size) same (ground arith),
              subst (All (Drawn active)) same drawn,
            )
      ]

-- A validator of the registry that is active in an epoch.
abbrev pub IsActive : BeaconState → Epoch → ValidatorIndex → Type 0
IsActive s epoch i =
    (v : Validator) × (get_elem? s.validators i ≡ some v) × (is_active_validator v epoch ≡ true)

-- If the indices of the next sync committee are found, then there are as many as the committee has
-- members, and each is that of a validator that is active in the epoch after the current one.
pub get_next_sync_committee_indices-IsActive :
    (env : Env) (s : BeaconState) (members : List ValidatorIndex)
    → get_next_sync_committee_indices env s ≡ ok members
    → (epoch : Epoch) × (get_current_epoch env s ≡ ok epoch)
      × (length members ≡ env.context.sync_committee_size)
      × All (IsActive s (wrapping_add epoch 1)) members
unfolding get_next_sync_committee_indices get_active_validator_indices
    Accessors.get_active_validator_indices shared
get_next_sync_committee_indices-IsActive env s members h =
    let (epoch, epoch_is, e₁) = >>=-eq-ok (get_current_epoch env s) _ h in
    let next = wrapping_add epoch 1 in
    let (seed, _, e₂) = >>=-eq-ok (get_seed env next sync_committee s) _ e₁ in
    let active = get_active_validator_indices next s in
    let (full, drawn) =
      sync_committee_loop-Drawn env active seed s env.proposer_fuel 0 [] (omega arith) tt e₂ in
    (
      epoch,
      epoch_is,
      full,
      All-map (Drawn active) (IsActive s next) members
          (λ i (k, at_k).
            let (j, v, place, at_j, is_active) = indices_where-Listed _ 0 s.validators k at_k in
            let same : j ≡ i = omega arith in
            (v, subst (λ n. get_elem? s.validators n ≡ some v) same at_j, is_active))
          drawn,
    )
