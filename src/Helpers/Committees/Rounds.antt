-- ===== src/Helpers/Committees/Rounds.antt =====
-- How many rounds the choice of a proposer takes.
use ethereum_consensus.Prelude.{
  ℕ, zero, suc, ◌+◌, ◌*◌, ◌/◌, ◌%◌, ◌^◌, ◌≡◌, ◌≤◌, ◌<◌, ◌∙◌, refl, ap, inl, inr, true, false, Bool,
  List, [], ◌∷◌, ◌++◌, some, length, get_elem?, get_elem?-some, get_elem?_bound, is_empty, arith,
  leb, le→leb, ◌==◌, ==_iff, Bool-cases, u64_mod, wrapping_add, wrapping_mul, wrapping_mul-eq,
}
use mathlib.Core.Path.{subst}
use native.Mathlib.Nat.{mul-le-mul_left, mod-lt, mod-eq_of_lt}
use ethereum_consensus.Prelude.Bytes.{Bytes, to_le_bytes}
use ethereum_consensus.Types.{Epoch, ValidatorIndex, Validator, BeaconState, beacon_proposer}
use ethereum_consensus.Outcome.{ok, rem-eq}
use ethereum_consensus.Env.{Env, IsSha256}
use ethereum_consensus.Helpers.Epochs.{get_current_epoch}
use ethereum_consensus.Helpers.Accessors.{get_active_validator_indices, get_seed}
use ethereum_consensus.Helpers.Accessors.Returns.{get_current_epoch-returns, get_seed-returns}
use ethereum_consensus.Helpers.Shuffling.Bijection.{
  compute_shuffled_index_total, compute_shuffled_index_surjective,
}
use ethereum_consensus.Helpers.Committees.{
  candidate_at, is_accepted, proposer_loop, compute_proposer_index, get_beacon_proposer_index,
}
use ethereum_consensus.Helpers.Committees.Proposer.{indices_where-Listed}

is_empty-false : (xs : List ℕ) (k : ℕ) {x : ℕ} → get_elem? xs k ≡ some x → is_empty xs ≡ false
is_empty-false [] k h = cc
is_empty-false (x ∷ xs) k h = refl

-- Every candidate is in the registry.
abbrev pub AreRegistered : List ValidatorIndex → BeaconState → Type 0
AreRegistered indices s =
    (k : ℕ) (c : ValidatorIndex)
    → get_elem? indices k ≡ some c
    → (v : Validator) × (get_elem? s.validators c ≡ some v)

module _ (env : Env) (sha : IsSha256 env.externals.hash) (seed : Bytes) (s : BeaconState) where
  is_accepted-total :
      (c i : ℕ) {v : Validator}
      → get_elem? s.validators c ≡ some v
      → (byte : ℕ) × (byte < 256)
        × (is_accepted env c seed i s
            ≡ ok (
                leb
                  (wrapping_mul env.context.max_effective_balance byte)
                  (wrapping_mul v.effective_balance 255)))
  unfolding is_accepted
  is_accepted-total c i found =
      let input = seed ++ to_le_bytes 8 (i / 32) in
      let (byte, at) =
        get_elem?-some (env.externals.hash input) (i % 32) (omega (arith, sha.length_is input)) in
      (byte, sha.bytes_are input (i % 32) at, rw (at, found) refl)

  is_accepted-full :
      (c i : ℕ) (v : Validator)
      → get_elem? s.validators c ≡ some v
      → v.effective_balance ≡ env.context.max_effective_balance
      → env.context.max_effective_balance * 255 < u64_mod
      → is_accepted env c seed i s ≡ ok true
  is_accepted-full c i v found full small =
      let (byte, bound, is) = is_accepted-total c i found in
      let most =
        mul-le-mul_left {m = byte} {n = 255} env.context.max_effective_balance (omega arith) in
      let passes : leb (wrapping_mul env.context.max_effective_balance byte)
            (wrapping_mul v.effective_balance 255)
          ≡ true =
        rw
          (
            full,
            wrapping_mul-eq env.context.max_effective_balance byte (omega (arith, most)),
            wrapping_mul-eq env.context.max_effective_balance 255 small,
          )
          (le→leb _ _ most) in
      is ∙ ap ok passes

  module _ (indices : List ValidatorIndex) (short : length indices < 2 ^ 63)
      (registered : AreRegistered indices s) where
    -- A round that fails neither at the candidate nor at the test.
    round-total :
        (i : ℕ)
        → 0 < length indices
        → (c : ValidatorIndex) × (b : Bool) × (candidate_at env indices seed i s ≡ ok c)
          × (is_accepted env c seed i s ≡ ok b)
    unfolding candidate_at
    round-total i some_index =
        let (j, shuffled, in_range) =
          compute_shuffled_index_total env sha seed (length indices) short (i % length indices)
            (mod-lt i some_index) in
        let (c, at_j) = get_elem?-some indices j in_range in
        let (v, found) = registered j c at_j in
        let (byte, _, is) = is_accepted-total c i found in
        (c, _, rw (rem-eq i (length indices) some_index, shuffled, at_j) refl, is)

    -- The round in which a given index is the candidate.
    round_of :
        (k : ℕ) (c : ValidatorIndex)
        → get_elem? indices k ≡ some c
        → (p : ℕ) × (p < length indices) × (candidate_at env indices seed p s ≡ ok c)
    unfolding candidate_at
    round_of k c at_k =
        let bound = get_elem?_bound indices k c at_k in
        let (p, in_range, shuffled) =
          compute_shuffled_index_surjective env sha seed (length indices) short k bound in
        (
          p,
          in_range,
          rw
              (
                rem-eq p (length indices) (omega (arith, bound)),
                mod-eq_of_lt in_range,
                shuffled,
                at_k,
              )
              refl,
        )

    -- From round `i`, the loop ends in round `p` at the latest.
    proposer_loop-returns :
        (fuel i p : ℕ) (c : ValidatorIndex)
        → i ≤ p
        → p < i + fuel
        → p < length indices
        → candidate_at env indices seed p s ≡ ok c
        → is_accepted env c seed p s ≡ ok true
        → (winner : ValidatorIndex) × (proposer_loop env fuel indices seed i s ≡ ok winner)
    unfolding proposer_loop
    proposer_loop-returns zero i p c before enough in_range candidate accepted =
        absurd (omega arith)
    proposer_loop-returns (suc fuel) i p c before enough in_range candidate accepted =
        elim (Bool-cases (i == p)) [
          | inl same ↦ (c, rw ((==_iff i p).0 same, candidate, accepted) refl)
          | inr differ ↦
              let (c', b, candidate', accepted') = round-total i (omega arith) in
              let next : wrapping_add i 1 ≡ suc i = omega arith in
              let (winner, rest) =
                proposer_loop-returns fuel (suc i) p c (ground arith) (omega arith) in_range
                  candidate accepted in
              elim (Bool-cases b) [
                | inl taken ↦ (c', rw (candidate', accepted', taken) refl)
                | inr passed ↦ (
                  winner,
                  rw (candidate', accepted', passed)
                      (ap (λ n. proposer_loop env fuel indices seed n s) next ∙ rest),
                )
              ]
        ]

-- The same once the epoch and its seed are known.
proposer-of_seed :
    (env : Env) (s : BeaconState) (epoch : Epoch) (epoch_seed : Bytes) (k i : ℕ) (v : Validator)
    → IsSha256 env.externals.hash
    → get_current_epoch env s ≡ ok epoch
    → get_seed env epoch beacon_proposer s ≡ ok epoch_seed
    → get_elem? (get_active_validator_indices epoch s) k ≡ some i
    → get_elem? s.validators i ≡ some v
    → v.effective_balance ≡ env.context.max_effective_balance
    → env.context.max_effective_balance * 255 < u64_mod
    → length (get_active_validator_indices epoch s) < 2 ^ 63
    → length (get_active_validator_indices epoch s) ≤ env.proposer_fuel
    → (winner : ValidatorIndex) × (get_beacon_proposer_index env s ≡ ok winner)
unfolding get_beacon_proposer_index compute_proposer_index get_active_validator_indices
proposer-of_seed env s epoch epoch_seed k i v sha epoch_is seed_is at_k found full small short
      enough =
    let indices = get_active_validator_indices epoch s in
    let seed = env.externals.hash (epoch_seed ++ to_le_bytes 8 s.slot) in
    let registered : AreRegistered indices s = (λ k' c at_k'.
      let (j, u, place, at_j, _) = indices_where-Listed _ 0 s.validators k' at_k' in
      let same : j ≡ c = omega arith in
      (u, subst (λ n. get_elem? s.validators n ≡ some u) same at_j)) in
    let bound = get_elem?_bound indices k i at_k in
    let (p, in_range, candidate) = round_of env sha seed s indices short registered k i at_k in
    let (winner, returns) =
      proposer_loop-returns env sha seed s indices short registered env.proposer_fuel 0 p i
        (omega arith) (omega arith) in_range candidate
        (is_accepted-full env sha seed s i p v found full small) in
    (winner, rw (epoch_is, seed_is, is_empty-false indices k at_k) returns)

-- If the hash returns thirty-two bytes, the length of an epoch and that of the randao vector are
-- positive, the randao mixes of the state have that length, there are fewer than 2^63 validators
-- active in the current epoch, no more than the fuel, one of them has the maximal effective
-- balance, and 255 times that balance is a 64-bit word, then the state has a proposer: the loop over
-- the candidates, which has no bound in the code, ends within as many rounds as there are active
-- validators.
pub get_beacon_proposer_index-returns :
    (env : Env) (s : BeaconState) (k i : ℕ) (v : Validator)
    → IsSha256 env.externals.hash
    → 0 < env.context.slots_per_epoch
    → 0 < env.generics.epochs_per_historical_vector
    → length s.randao_mixes ≡ env.generics.epochs_per_historical_vector
    → get_elem? (get_active_validator_indices (s.slot / env.context.slots_per_epoch) s) k ≡ some i
    → get_elem? s.validators i ≡ some v
    → v.effective_balance ≡ env.context.max_effective_balance
    → env.context.max_effective_balance * 255 < u64_mod
    → length (get_active_validator_indices (s.slot / env.context.slots_per_epoch) s) < 2 ^ 63
    → length (get_active_validator_indices (s.slot / env.context.slots_per_epoch) s)
      ≤ env.proposer_fuel
    → (winner : ValidatorIndex) × (get_beacon_proposer_index env s ≡ ok winner)
get_beacon_proposer_index-returns env s k i v sha slots mixes full at_k found maximal small short
      enough =
    let epoch = s.slot / env.context.slots_per_epoch in
    let (seed, seed_is) = get_seed-returns env s epoch beacon_proposer mixes full in
    proposer-of_seed env s epoch seed k i v sha (get_current_epoch-returns env s slots) seed_is at_k
      found maximal small short enough
