-- ===== src/Genesis/Shape.antt =====
-- The state at genesis has the shape that every later step keeps.
use ethereum_consensus.Prelude.{
  ℕ, ◌≡◌, not, List, [], ◌∷◌, length, length-replicate, ◌==◌, inl, inr, Bool-cases, arith,
}
use mathlib.Core.Path.{subst}
use ethereum_consensus.Prelude.Bytes.{Bytes}
use ethereum_consensus.Types.{Root, Deposit, DepositData, BeaconState, default_root}
use ethereum_consensus.Outcome.{Outcome, ok, err, fault, >>=-eq-ok}
use ethereum_consensus.Action.{err≢ok, fault≢ok}
use ethereum_consensus.Action.Keeps.{
  Keeps, Keeps-bind, Keeps-lift, Keeps-modify, Keeps-pure, keeps_rules,
}
use ethereum_consensus.Env.{Env, body_object}
use ethereum_consensus.Shape.{Shape, HasShape}
use ethereum_consensus.Helpers.Exits.Shape.{update_validator-HasShape}
use ethereum_consensus.BlockProcessing.Deposits.Shape.{process_deposit-HasShape}
use ethereum_consensus.Genesis.{
  default_body, with_deposit_root, with_genesis_validators_root, final_state, initial_state,
  process_deposits, activate_validator, complete_genesis, initialize_beacon_state_from_eth1,
}

-- The shape that the const generics give.
abbrev pub genesis_shape : Env → Shape
genesis_shape env = record {
  slot = 0;
  block_roots = env.generics.slots_per_historical_root;
  state_roots = env.generics.slots_per_historical_root;
  randao_mixes = env.generics.epochs_per_historical_vector;
  slashings = env.generics.epochs_per_slashings_vector;
}

module _ {k : Shape} where
  with_deposit_root-HasShape :
      (root : Root) (s : BeaconState) → HasShape k s → HasShape k (with_deposit_root root s)
  unfolding with_deposit_root
  with_deposit_root-HasShape root s h = ground arith

  with_validators_root-HasShape :
      (root : Root) (s : BeaconState)
      → HasShape k s
      → HasShape k (with_genesis_validators_root root s)
  unfolding with_genesis_validators_root
  with_validators_root-HasShape root s h = ground arith

module _ (env : Env) {k : Shape} where
  process_deposits-HasShape :
      (leaves : List DepositData) (deposits : List Deposit)
      → Keeps (HasShape k) (process_deposits env leaves deposits)
  unfolding process_deposits
  process_deposits-HasShape leaves [] = Keeps-pure tt
  process_deposits-HasShape leaves (d ∷ deposits) = Keeps-bind _ _ (Keeps-lift _) λ root.
      Keeps-bind _ _ (Keeps-modify _ (with_deposit_root-HasShape root)) λ _.
        Keeps-bind _ _ (process_deposit-HasShape env d) λ _. process_deposits-HasShape _ deposits

  activate_validator-HasShape : (i : ℕ) → Keeps (HasShape k) (activate_validator env i)
  unfolding activate_validator
  activate_validator-HasShape i = search (keeps_rules, update_validator-HasShape) depth 9

  complete_genesis-HasShape :
      (deposits : List Deposit) → Keeps (HasShape k) (complete_genesis env deposits)
  unfolding complete_genesis
  complete_genesis-HasShape deposits =
      search
        (
          keeps_rules, Keeps-modify, process_deposits-HasShape, activate_validator-HasShape,
          with_validators_root-HasShape,
        )
        depth 12

final_state-HasShape :
    {k : Shape} (r : Outcome (Unit {0})) (s : BeaconState) {s' : BeaconState}
    → HasShape k s
    → final_state (r, s) ≡ ok s'
    → HasShape k s'
unfolding final_state
final_state-HasShape (ok u) s {s'} h e = let same : s ≡ s' = cc in subst (HasShape _) same h
final_state-HasShape (err x) s h e = absurd (err≢ok e)
final_state-HasShape (fault x) s h e = absurd (fault≢ok e)

module _ (env : Env) where
  initial_state-HasShape :
      (eth1_block_hash : Bytes) (timestamp count : ℕ) (body_root : Root)
      → env.context.epochs_per_historical_vector ≡ env.generics.epochs_per_historical_vector
      → HasShape (genesis_shape env) (initial_state env eth1_block_hash timestamp count body_root)
  unfolding initial_state
  initial_state-HasShape eth1_block_hash timestamp count body_root same = ground (
    arith,
    length-replicate env.generics.slots_per_historical_root default_root,
    length-replicate env.context.epochs_per_historical_vector eth1_block_hash,
    length-replicate {A = ℕ} env.generics.epochs_per_slashings_vector 0,
  )

  -- If the initialization from the deposits returns a state, then it is at slot zero, its vectors
  -- have the lengths of the const generics, and every validator has a balance.
  pub initialize_beacon_state-HasShape :
      (eth1_block_hash : Bytes) (timestamp : ℕ) (deposits : List Deposit) (s : BeaconState)
      → initialize_beacon_state_from_eth1 env eth1_block_hash timestamp deposits ≡ ok s
      → HasShape (genesis_shape env) s
  unfolding initialize_beacon_state_from_eth1
  initialize_beacon_state-HasShape eth1_block_hash timestamp deposits s h =
      let (body_root, _, rest) =
        >>=-eq-ok (env.externals.hash_tree_root (body_object default_body)) _ h in
      let differ =
        not
          (env.context.epochs_per_historical_vector == env.generics.epochs_per_historical_vector) in
      elim (Bool-cases differ) [
        | inl bad ↦ absurd (fault≢ok (rw bad at rest))
        | inr fine ↦
            let start =
              initial_state-HasShape eth1_block_hash timestamp (length deposits) body_root
                (ground arith) in
            let first = initial_state env eth1_block_hash timestamp (length deposits) body_root in
            final_state-HasShape (complete_genesis env deposits first).0
              (complete_genesis env deposits first).1
              ((complete_genesis-HasShape env deposits).at first start) (rw fine at rest)
      ]
