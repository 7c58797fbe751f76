-- ===== src/Genesis.antt =====
-- ethereum-consensus/src/phase0/genesis.rs: the state at genesis, from the deposits.
pub mod Shape
use ethereum_consensus.Prelude.{
  ℕ, zero, suc, ◌-◌, not, Bool, false, List, [], ◌∷◌, ◌++◌, length, replicate, leb, ltb, min, ◌==◌,
  if◌then◌else◌, wrapping_add,
}
use ethereum_consensus.Prelude.Bytes.{Bytes}
use ethereum_consensus.Types.{
  Root, Gwei, Validator, Deposit, DepositData, Eth1Data, Checkpoint, BeaconBlock, BeaconBlockBody,
  BeaconBlockHeader, BeaconState, default_root, genesis_epoch,
}
use ethereum_consensus.Outcome
use ethereum_consensus.Outcome.{Outcome, ok, err, fault, panic, fail_if, index, rem}
use ethereum_consensus.Action.{Action, read, gets, lift, modify, pure, for_range, ◌>>=◌, ◌>>◌}
use ethereum_consensus.Env.{
  Env, state_object, body_object, validators_object, deposit_data_list_object,
}
use ethereum_consensus.Helpers.Accessors.{get_active_validator_indices}
use ethereum_consensus.Helpers.Exits.{update_validator}
use ethereum_consensus.BlockProcessing.Deposits.{process_deposit}

-- The derived `Default` of the parts.
abbrev pub default_checkpoint : Checkpoint
default_checkpoint = record { epoch = 0; root = default_root }

abbrev pub default_eth1_data : Eth1Data
default_eth1_data = record {
  deposit_root = default_root;
  deposit_count = 0;
  block_hash = replicate 32 0;
}

abbrev pub default_body : BeaconBlockBody
default_body = record {
  randao_reveal = replicate 96 0;
  eth1_data = default_eth1_data;
  graffiti = replicate 32 0;
  proposer_slashings = [];
  attester_slashings = [];
  attestations = [];
  deposits = [];
  voluntary_exits = [];
}

-- `state.eth1_data.deposit_root = root`
unfoldable pub with_deposit_root : Root → BeaconState → BeaconState
with_deposit_root root state = record state {
  eth1_data = record state.eth1_data { deposit_root = root };
}

unfoldable pub with_genesis_validators_root : Root → BeaconState → BeaconState
with_genesis_validators_root root state = record state { genesis_validators_root = root }

-- What a local state has become, where the action on it was successful.
unfoldable pub final_state : Outcome (Unit {0}) × BeaconState → Outcome BeaconState
final_state (ok u, state) = ok state
final_state (err e, state) = err e
final_state (fault cause, state) = fault cause

unfoldable pub get_genesis_block : Env → BeaconState → Outcome BeaconBlock
get_genesis_block env state =
    Outcome.◌>>=◌ (env.externals.hash_tree_root (state_object state)) λ state_root. ok (record {
      slot = 0;
      proposer_index = 0;
      parent_root = default_root;
      state_root = state_root;
      body = default_body;
    })

module _ (env : Env) where
  open env use {context, generics, externals}

  -- The state that the loop over the deposits starts from.
  unfoldable pub initial_state : (eth1_block_hash : Bytes) → ℕ → ℕ → Root → BeaconState
  initial_state eth1_block_hash eth1_timestamp deposit_count body_root = record {
    genesis_time = wrapping_add eth1_timestamp context.genesis_delay;
    genesis_validators_root = default_root;
    slot = 0;
    fork = record {
      previous_version = context.genesis_fork_version;
      current_version = context.genesis_fork_version;
      epoch = genesis_epoch;
    };
    latest_block_header = record {
      slot = 0;
      proposer_index = 0;
      parent_root = default_root;
      state_root = default_root;
      body_root = body_root;
    };
    block_roots = replicate generics.slots_per_historical_root default_root;
    state_roots = replicate generics.slots_per_historical_root default_root;
    historical_roots = [];
    eth1_data = record {
      deposit_root = default_root;
      deposit_count = deposit_count;
      block_hash = eth1_block_hash;
    };
    eth1_data_votes = [];
    eth1_deposit_index = 0;
    validators = [];
    balances = [];
    randao_mixes = replicate context.epochs_per_historical_vector eth1_block_hash;
    slashings = replicate generics.epochs_per_slashings_vector 0;
    previous_epoch_attestations = [];
    current_epoch_attestations = [];
    justification_bits = record { bit_0 = false; bit_1 = false; bit_2 = false; bit_3 = false };
    previous_justified_checkpoint = default_checkpoint;
    current_justified_checkpoint = default_checkpoint;
    finalized_checkpoint = default_checkpoint;
  }

  -- The loop over the deposits, with the leaves so far.
  unfoldable pub process_deposits : List DepositData → List Deposit → Action (Unit {0})
  process_deposits leaves [] = pure tt
  process_deposits leaves (d ∷ deposits) = do
    let leaves' = leaves ++ d.deposit_data ∷ []
    root ← lift (externals.hash_tree_root (deposit_data_list_object leaves'))
    modify (with_deposit_root root)
    process_deposit env d
    process_deposits leaves' deposits

  -- The effective balance, and the activation of a validator that has all of it.
  unfoldable pub activate_genesis : Gwei → Validator → Validator
  activate_genesis effective_balance v =
      if effective_balance == context.max_effective_balance
      then record v {
        effective_balance = effective_balance;
        activation_eligibility_epoch = genesis_epoch;
        activation_epoch = genesis_epoch;
      }
      else record v { effective_balance = effective_balance }

  -- The body of the loop over the validators.
  unfoldable pub activate_validator : ℕ → Action (Unit {0})
  activate_validator i = do
    balance ← read (λ state. index state.balances i)
    remainder ← lift (rem balance context.effective_balance_increment)
    update_validator i (activate_genesis (min (balance - remainder) context.max_effective_balance))

  -- What the function does with the local state.
  unfoldable pub complete_genesis : List Deposit → Action (Unit {0})
  complete_genesis deposits = do
    process_deposits [] deposits
    n ← gets (λ state. length state.validators)
    for_range n 0 activate_validator
    root ← read (λ state. externals.hash_tree_root (validators_object state.validators))
    modify (with_genesis_validators_root root)

  -- `Vector::try_from(...).unwrap()` panics where the two lengths differ.
  unfoldable pub initialize_beacon_state_from_eth1 :
      (eth1_block_hash : Bytes) → ℕ → List Deposit → Outcome BeaconState
  initialize_beacon_state_from_eth1 eth1_block_hash eth1_timestamp deposits =
      Outcome.◌>>=◌ (externals.hash_tree_root (body_object default_body)) λ body_root.
        if not (context.epochs_per_historical_vector == generics.epochs_per_historical_vector)
        then fault panic
        else final_state (
            complete_genesis deposits
              (initial_state eth1_block_hash eth1_timestamp (length deposits) body_root))

  unfoldable pub is_valid_genesis_state : BeaconState → Bool
  is_valid_genesis_state state =
      if ltb state.genesis_time context.min_genesis_time
      then false
      else leb context.min_genesis_active_validator_count
          (length (get_active_validator_indices genesis_epoch state))
