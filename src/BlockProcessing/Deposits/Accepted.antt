-- ===== src/BlockProcessing/Deposits/Accepted.antt =====
-- What `process_deposit` does with a deposit that it accepts.
use ethereum_consensus.Prelude.{
  ℕ, ◌≡◌, ◌≢◌, ◌⊎◌, inl, inr, refl, ap, sym, ◌∙◌, true, false, none, some, List, [], ◌∷◌, ◌+◌,
  get_elem?, zero, suc, arith, Bool-cases, Option-cases, wrapping_add, not-eq-false,
}
use ethereum_consensus.Prelude.Bytes.{bytes_eq, bytes_eq_sound, bytes_eq_refl}
use ethereum_consensus.Types.{
  Root, BlsPublicKey, Deposit, Validator, BeaconState, deposit_contract_tree_depth,
}
use ethereum_consensus.Outcome.{ok, unwrap-eq-ok}
use ethereum_consensus.Action.{
  read->>=-eq-ok, gets->>=-eq-ok, lift->>=-eq-ok, modify->>=-eq-ok, guard_not->>-eq-ok,
  modify-eq-ok, pure,
}
use ethereum_consensus.Env.{Env, deposit_data_object}
use ethereum_consensus.Helpers.Balances.{set_balance, increase_balance}
use ethereum_consensus.BlockProcessing.Deposits.{
  count_deposit, push_validator, position_of, get_validator_from_deposit, add_validator,
  credit_or_add, process_deposit,
}

-- The key is that of the validator at the place that is found.
position_of-some :
    (key : BlsPublicKey) (from : ℕ) (vs : List Validator) {i : ℕ}
    → position_of key from vs ≡ some i
    → (k : ℕ) × (v : Validator) × (i ≡ from + k) × (get_elem? vs k ≡ some v) × (v.public_key ≡ key)
unfolding position_of
position_of-some key from [] h = cc
position_of-some key from (v ∷ vs) {i} h = elim (Bool-cases (bytes_eq v.public_key key)) [
  | inl same ↦
      let here : some from ≡ some i = rw same at h in
      let place : from ≡ i = cc in (0, v, omega arith, refl, bytes_eq_sound v.public_key key same)
  | inr other ↦
      let (k, w, place, found, key_is) = position_of-some key (suc from) vs (rw other at h) in
      (suc k, w, place ∙ (omega arith), found, key_is)
]

some≢none : {i : ℕ} → some i ≢ none
some≢none h = cc

true≢false : true ≢ false
true≢false h = cc

-- Where no place is found, nobody has the key.
position_of-none :
    (key : BlsPublicKey) (from : ℕ) (vs : List Validator)
    → position_of key from vs ≡ none
    → (k : ℕ) (v : Validator) → get_elem? vs k ≡ some v
    → v.public_key ≢ key
unfolding position_of
position_of-none key from [] h k v found = cc
position_of-none key from (w ∷ vs) h zero v found = elim (Bool-cases (bytes_eq w.public_key key)) [
  | inl same ↦ absurd (some≢none (rw same at h))
  | inr other ↦
      λ same. let it : w ≡ v = cc in true≢false (sym (rw (it, same) (bytes_eq_refl key)) ∙ other)
]
position_of-none key from (w ∷ vs) h (suc k) v found =
    elim (Bool-cases (bytes_eq w.public_key key)) [
      | inl same ↦ absurd (some≢none (rw same at h))
      | inr other ↦ position_of-none key (suc from) vs (rw other at h) k v found
    ]

module _ (env : Env) (d : Deposit) where
  -- A new key: the registry is as it was, or has the validator of the deposit at its end.
  add_validator-accepted :
      (s s' : BeaconState)
      → add_validator env d s ≡ (ok tt, s')
      → (s ≡ s')
        ⊎ ((v : Validator) × (get_validator_from_deposit env d ≡ ok v)
            × (s' ≡ push_validator v d.deposit_data.amount s))
  unfolding add_validator pure
  add_validator-accepted s s' e =
      let (_, _, e₁) = lift->>=-eq-ok _ _ s e in
      let (_, _, e₂) = lift->>=-eq-ok _ _ s e₁ in
      let (bad, _, e₃) = lift->>=-eq-ok _ _ s e₂ in
      elim (Bool-cases bad) [
        | inl skipped ↦ inl (ap (λ (p : _ × BeaconState). p.1) (rw skipped at e₃))
        | inr good ↦
            let (v, made, e₄) =
              lift->>=-eq-ok (get_validator_from_deposit env d) _ s (rw good at e₃) in
            inr (v, made, sym (modify-eq-ok _ e₄))
      ]

  -- What holds when a deposit has taken a state to another: the key belongs to a validator and its
  -- balance goes up, or nobody has the key and the deposit is skipped, or adds a validator.
  abbrev pub Deposited : BeaconState → BeaconState → Type 0
  Deposited s s' =
      ((i : ℕ) × (v : Validator) × (balance : ℕ) × (get_elem? s.validators i ≡ some v)
        × (v.public_key ≡ d.deposit_data.public_key)
        × (get_elem? s.balances i ≡ some balance)
        × (s' ≡ set_balance i (wrapping_add balance d.deposit_data.amount) (count_deposit s)))
      ⊎ (((k : ℕ) (v : Validator)
            → get_elem? s.validators k ≡ some v
            → v.public_key ≢ d.deposit_data.public_key)
          × ((s' ≡ count_deposit s)
              ⊎ ((v : Validator) × (get_validator_from_deposit env d ≡ ok v)
                  × (s' ≡ push_validator v d.deposit_data.amount (count_deposit s)))))

  -- If a deposit is accepted, its proof is valid for its leaf at the index that comes next, that
  -- index is counted up, and if a validator has the key of the deposit, the amount is added, as a
  -- 64-bit word, to the balance of such a validator; else either nothing more changes, or the
  -- validator of the deposit is put at the end of the registry with the amount as its balance.
  pub process_deposit-accepted :
      (s s' : BeaconState)
      → process_deposit env d s ≡ (ok tt, s')
      → (leaf : Root) × (env.externals.hash_tree_root (deposit_data_object d.deposit_data)
          ≡ ok leaf)
        × (env.externals.is_valid_merkle_branch leaf d.proof
              (deposit_contract_tree_depth + 1)
              s.eth1_deposit_index
              s.eth1_data.deposit_root
            ≡ true)
        × Deposited s s'
  unfolding process_deposit credit_or_add increase_balance count_deposit
  process_deposit-accepted s s' e =
      let (leaf, leaf_is, e₁) = lift->>=-eq-ok _ _ s e in
      let e₂ = gets->>=-eq-ok (λ state. state.eth1_deposit_index) _ s e₁ in
      let e₃ = gets->>=-eq-ok (λ state. state.eth1_data.deposit_root) _ s e₂ in
      let (valid, e₄) = guard_not->>-eq-ok _ _ _ s e₃ in
      let e₅ = modify->>=-eq-ok count_deposit _ s e₄ in
      let e₆ =
        gets->>=-eq-ok (λ state. position_of d.deposit_data.public_key 0 state.validators) _
          (count_deposit s) e₅ in
      (
        leaf,
        leaf_is,
        not-eq-false _ valid,
        elim (Option-cases (position_of d.deposit_data.public_key 0 s.validators)) [
          | inl nobody ↦ inr (
            position_of-none _ 0 s.validators nobody,
            elim (add_validator-accepted (count_deposit s) s' (rw nobody at e₆)) [
              | inl same ↦ inl (sym same)
              | inr added ↦ inr added
            ],
          )
          | inr (i, found) ↦
              let (k, v, place, here, key_is) = position_of-some _ 0 s.validators found in
              let same : i ≡ k = omega arith in
              let (balance, has, e₇) =
                read->>=-eq-ok _ _ (count_deposit s) (rw (found, same) at e₆) in
              inl (k, v, balance, here, key_is, unwrap-eq-ok _ has, sym (modify-eq-ok _ e₇))
        ],
      )
