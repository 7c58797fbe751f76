-- ===== src/BlockProcessing/Deposits.antt =====
-- ethereum-consensus/src/phase0/block_processing.rs: `process_deposit`, and the new validator.
pub mod Accepted
pub mod Shape
use ethereum_consensus.Prelude.{
  ℕ, suc, ◌+◌, ◌-◌, false, not, Option, none, some, List, [], ◌∷◌, ◌++◌, min, if◌then◌else◌,
  wrapping_add,
}
use ethereum_consensus.Prelude.Bytes.{bytes_eq}
use ethereum_consensus.Types.{
  Gwei, Validator, Deposit, BlsPublicKey, BeaconState, deposit, far_future_epoch,
  deposit_contract_tree_depth,
}
use ethereum_consensus.Errors.{invalid_operation_error, deposit_operation, invalid_proof}
use ethereum_consensus.Outcome
use ethereum_consensus.Outcome.{Outcome, ok, rem}
use ethereum_consensus.Action.{Action, gets, lift, modify, pure, guard_not, ◌>>=◌, ◌>>◌}
use ethereum_consensus.Env.{Env, deposit_data_object, deposit_message_object}
use ethereum_consensus.Helpers.Domains.{compute_domain, compute_signing_root}
use ethereum_consensus.Helpers.Balances.{increase_balance}
use ethereum_consensus.BlockProcessing.Randao.{is_err}

unfoldable pub count_deposit : BeaconState → BeaconState
count_deposit state = record state { eth1_deposit_index = wrapping_add state.eth1_deposit_index 1 }

unfoldable pub push_validator : Validator → Gwei → BeaconState → BeaconState
push_validator v amount state = record state {
  validators = state.validators ++ v ∷ [];
  balances = state.balances ++ amount ∷ [];
}

-- The place of the first validator with a key, counted from `i`.
unfoldable pub position_of : BlsPublicKey → ℕ → List Validator → Option ℕ
position_of key i [] = none
position_of key i (v ∷ validators) =
    if bytes_eq v.public_key key then some i else position_of key (suc i) validators

module _ (env : Env) where
  open env use {context, externals}

  unfoldable pub get_validator_from_deposit : Deposit → Outcome Validator
  get_validator_from_deposit d =
      let amount = d.deposit_data.amount in
      Outcome.◌>>=◌ (rem amount context.effective_balance_increment) λ remainder. ok (record {
        public_key = d.deposit_data.public_key;
        withdrawal_credentials = d.deposit_data.withdrawal_credentials;
        effective_balance = min (amount - remainder) context.max_effective_balance;
        slashed = false;
        activation_eligibility_epoch = far_future_epoch;
        activation_epoch = far_future_epoch;
        exit_epoch = far_future_epoch;
        withdrawable_epoch = far_future_epoch;
      })

  -- A deposit with a new key: one with a bad signature is skipped without an error.
  unfoldable pub add_validator : Deposit → Action (Unit {0})
  add_validator d = do
    let key = d.deposit_data.public_key
    let amount = d.deposit_data.amount
    let message = deposit_message_object (record {
      public_key = key;
      withdrawal_credentials = d.deposit_data.withdrawal_credentials;
      amount = amount;
    })
    domain ← lift (compute_domain env deposit none none)
    signing_root ← lift (compute_signing_root env message domain)
    bad ← lift (is_err (externals.verify_signature key signing_root d.deposit_data.signature))
    if bad
        then pure tt
        else do v ← lift (get_validator_from_deposit d); modify (push_validator v amount)

  -- The code looks the key up in a set, and then finds its first place in the registry.
  unfoldable pub credit_or_add : Deposit → Option ℕ → Action (Unit {0})
  credit_or_add d none = add_validator d
  credit_or_add d (some i) = increase_balance i d.deposit_data.amount

  unfoldable pub process_deposit : Deposit → Action (Unit {0})
  process_deposit d = do
    leaf ← lift (externals.hash_tree_root (deposit_data_object d.deposit_data))
    let depth = deposit_contract_tree_depth + 1
    i ← gets (λ state. state.eth1_deposit_index)
    root ← gets (λ state. state.eth1_data.deposit_root)
    guard_not (not (externals.is_valid_merkle_branch leaf d.proof depth i root))
        (invalid_operation_error (deposit_operation (invalid_proof leaf d.proof depth i root)))
    modify count_deposit
    known ← gets (λ state. position_of d.deposit_data.public_key 0 state.validators)
    credit_or_add d known
