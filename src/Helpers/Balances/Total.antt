-- ===== src/Helpers/Balances/Total.antt =====
-- What `get_total_balance` returns.
use ethereum_consensus.Prelude.{
  ℕ, ◌+◌, ◌<◌, ◌≡◌, refl, ◌∙◌, inl, inr, List, [], ◌∷◌, All, length, max, arith, leb, u64_mod,
  get_elem?, get_elem?-some, Bool-cases, if◌then◌else◌, Option, none, some,
}
use mathlib.Core.Path.{subst}
use mathlib.Core.List.{Permᴰ}
use ethereum_consensus.Types.{ValidatorIndex, BeaconState, Validator}
use ethereum_consensus.Errors.{overflow}
use ethereum_consensus.Outcome.{ok, err}
use ethereum_consensus.Env.{Env}
use ethereum_consensus.Helpers.Balances.{checked_add, total_from, get_total_balance}

balance_of : Option Validator → ℕ
balance_of none = 0
balance_of (some v) = v.effective_balance

-- The mathematical sum of the effective balances, without a bound.
unfoldable pub effective_balance_sum : BeaconState → List ValidatorIndex → ℕ
unfolding balance_of
effective_balance_sum s [] = 0
effective_balance_sum s (i ∷ indices) =
    balance_of (get_elem? s.validators i) + effective_balance_sum s indices

total_from-eq :
    (acc : ℕ) (indices : List ValidatorIndex) (s : BeaconState)
    → acc < u64_mod
    → All (λ i. i < length s.validators) indices
    → total_from acc indices s ≡ (
        if leb u64_mod (acc + effective_balance_sum s indices)
        then err overflow
        else ok (acc + effective_balance_sum s indices))
unfolding total_from effective_balance_sum balance_of checked_add
total_from-eq acc [] s small h = ground arith
total_from-eq acc (i ∷ indices) s small (here, rest) =
    let (v, found) = get_elem?-some s.validators i here in
    elim (Bool-cases (leb u64_mod (acc + v.effective_balance))) [
      | inl over ↦ rw (found, over) (ground arith)
      | inr fits ↦
          rw (found, fits)
            (rw (total_from-eq (acc + v.effective_balance) indices s (ground arith) rest)
              (ground arith))
    ]

module _ (env : Env) (s : BeaconState) where
  -- For indices of the registry, `get_total_balance` returns the sum of their effective balances,
  -- or one increment if that is more, unless the sum does not fit in 64 bits: then, and only then,
  -- it is an overflow.
  pub get_total_balance-eq :
      (indices : List ValidatorIndex)
      → All (λ i. i < length s.validators) indices
      → get_total_balance env indices s ≡ (
          if leb u64_mod (effective_balance_sum s indices)
          then err overflow
          else ok (max (effective_balance_sum s indices) env.context.effective_balance_increment))
  unfolding get_total_balance
  get_total_balance-eq indices h =
      let no_more : 0 + effective_balance_sum s indices ≡ effective_balance_sum s indices =
        omega arith in
      rw (total_from-eq 0 indices s (omega arith) h, no_more)
        (elim (Bool-cases (leb u64_mod (effective_balance_sum s indices))) [
          | inl over ↦ rw over refl
          | inr fits ↦ rw fits refl
        ])

  All-Perm :
      (P : ValidatorIndex → Type 0) {xs ys : List ValidatorIndex}
      → Permᴰ xs ys
      → All P xs
      → All P ys
  All-Perm P Permᴰ.nil h = h
  All-Perm P (Permᴰ.cons e p) (px, h) = (subst P e px, All-Perm P p h)
  All-Perm P (Permᴰ.swap e d) (px, (py, h)) = (subst P d py, (subst P e px, h))
  All-Perm P (Permᴰ.trans p q) h = All-Perm P q (All-Perm P p h)

  effective_balance_sum-Perm :
      {xs ys : List ValidatorIndex}
      → Permᴰ xs ys
      → effective_balance_sum s xs ≡ effective_balance_sum s ys
  unfolding effective_balance_sum
  effective_balance_sum-Perm Permᴰ.nil = refl
  effective_balance_sum-Perm (Permᴰ.cons {a = a} e p) = rw (e, effective_balance_sum-Perm p) refl
  effective_balance_sum-Perm (Permᴰ.swap e d) = rw (e, d) (omega arith)
  effective_balance_sum-Perm (Permᴰ.trans p q) =
      effective_balance_sum-Perm p ∙ effective_balance_sum-Perm q

  -- The order in which the indices of a set are gone over does not matter for their total balance,
  -- nor for whether it overflows.
  pub get_total_balance-Perm :
      {xs ys : List ValidatorIndex}
      → Permᴰ xs ys
      → All (λ i. i < length s.validators) xs
      → get_total_balance env xs s ≡ get_total_balance env ys s
  get_total_balance-Perm {xs} {ys} p h =
      rw
        (
          get_total_balance-eq xs h,
          get_total_balance-eq ys (All-Perm (λ i. i < length s.validators) p h),
          effective_balance_sum-Perm p,
        )
        refl
