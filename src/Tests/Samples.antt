-- ===== src/Tests/Samples.antt =====
-- A small chain: four slots to an epoch, four validators, and stand-ins for the other crates.
use ethereum_consensus.Prelude.{
  ℕ, zero, suc, ◌*◌, ◌%◌, true, false, [], ◌∷◌, length, replicate, length-replicate,
  get_elem?-replicate, arith, if◌then◌else◌, leb,
}
use ethereum_consensus.Prelude.Bytes.{Bytes}
use ethereum_consensus.Types.{
  Context, Generics, Checkpoint, Validator, BeaconState, BeaconBlockHeader, ProposerSlashing,
  Deposit, Eth1Data, AttestationData, default_root, far_future_epoch, Attestation,
  SignedVoluntaryExit, BeaconBlockBody, BeaconBlock, SignedBeaconBlock,
}
use ethereum_consensus.Outcome.{ok}
use ethereum_consensus.Env.{Env, Externals, IsSha256}

abbrev pub context : Context
context = record {
  max_committees_per_slot = 4;
  target_committee_size = 4;
  shuffle_round_count = 10;
  hysteresis_quotient = 4;
  hysteresis_downward_multiplier = 1;
  hysteresis_upward_multiplier = 5;
  max_effective_balance = 32;
  effective_balance_increment = 4;
  min_attestation_inclusion_delay = 1;
  slots_per_epoch = 4;
  min_seed_lookahead = 1;
  max_seed_lookahead = 4;
  min_epochs_to_inactivity_penalty = 4;
  epochs_per_eth1_voting_period = 4;
  slots_per_historical_root = 8;
  epochs_per_historical_vector = 4;
  epochs_per_slashings_vector = 4;
  base_reward_factor = 64;
  whistleblower_reward_quotient = 4;
  proposer_reward_quotient = 2;
  inactivity_penalty_quotient = 64;
  min_slashing_penalty_quotient = 8;
  proportional_slashing_multiplier = 2;
  max_deposits = 4;
  inactivity_penalty_quotient_altair = 16;
  min_slashing_penalty_quotient_altair = 8;
  proportional_slashing_multiplier_altair = 2;
  inactivity_penalty_quotient_bellatrix = 8;
  min_slashing_penalty_quotient_bellatrix = 4;
  proportional_slashing_multiplier_bellatrix = 3;
  sync_committee_size = 2;
  epochs_per_sync_committee_period = 2;
  min_genesis_active_validator_count = 2;
  min_genesis_time = 100;
  genesis_fork_version = 0 ∷ 0 ∷ 0 ∷ 1 ∷ [];
  genesis_delay = 10;
  altair_fork_version = 1 ∷ 0 ∷ 0 ∷ 1 ∷ [];
  altair_fork_epoch = 4;
  bellatrix_fork_version = 2 ∷ 0 ∷ 0 ∷ 1 ∷ [];
  bellatrix_fork_epoch = 8;
  capella_fork_version = 3 ∷ 0 ∷ 0 ∷ 1 ∷ [];
  capella_fork_epoch = 12;
  deneb_fork_version = 4 ∷ 0 ∷ 0 ∷ 1 ∷ [];
  deneb_fork_epoch = 16;
  seconds_per_slot = 12;
  min_validator_withdrawability_delay = 2;
  shard_committee_period = 2;
  inactivity_score_bias = 4;
  inactivity_score_recovery_rate = 16;
  ejection_balance = 16;
  min_per_epoch_churn_limit = 1;
  churn_limit_quotient = 4;
}

abbrev pub generics : Generics
generics = record {
  slots_per_historical_root = 8;
  epochs_per_historical_vector = 4;
  epochs_per_slashings_vector = 4;
  sync_committee_size = context.sync_committee_size;
  bytes_per_logs_bloom = 4;
}

abbrev pub digest : Bytes → Bytes
digest b = replicate 32 (length b % 256)

-- The greatest root up to `k`.
abbrev pub sqrt_below : ℕ → ℕ → ℕ
sqrt_below zero n = 0
sqrt_below (suc k) n = if leb (suc k * suc k) n then suc k else sqrt_below k n

abbrev pub externals : Externals
externals = record {
  hash = digest;
  hash_tree_root = λ o. ok (replicate 32 1);
  verify_signature = λ key message signature. ok tt;
  fast_aggregate_verify = λ keys message signature. ok tt;
  is_valid_merkle_branch = λ leaf branch depth i root. true;
  aggregate_public_keys = λ keys. ok [];
  integer_sqrt = λ n. sqrt_below 64 n;
}

abbrev pub env : Env
env = record { context = context; generics = generics; externals = externals; proposer_fuel = 16 }

pub digest-IsSha256 : IsSha256 digest
digest-IsSha256 = record {
  length_is = λ b. length-replicate 32 (length b % 256);
  bytes_are = λ b i h. omega (arith, get_elem?-replicate 32 (length b % 256) i h);
}

abbrev pub checkpoint : ℕ → Checkpoint
checkpoint n = record { epoch = n; root = replicate 32 1 }

-- An active validator, with a key of its own.
abbrev pub validator : ℕ → Validator
validator n = record {
  public_key = n ∷ [];
  withdrawal_credentials = [];
  effective_balance = 32;
  slashed = false;
  activation_eligibility_epoch = 0;
  activation_epoch = 0;
  exit_epoch = far_future_epoch;
  withdrawable_epoch = far_future_epoch;
}

abbrev pub header : BeaconBlockHeader
header = record {
  slot = 0;
  proposer_index = 0;
  parent_root = default_root;
  state_root = default_root;
  body_root = default_root;
}

abbrev pub eth1 : Eth1Data
eth1 = record { deposit_root = default_root; deposit_count = 4; block_hash = default_root }

-- A state of the chain at a slot.
abbrev pub state_at : ℕ → BeaconState
state_at slot = record {
  genesis_time = 0;
  genesis_validators_root = default_root;
  slot = slot;
  fork = record { previous_version = []; current_version = []; epoch = 0 };
  latest_block_header = header;
  block_roots = replicate 8 (replicate 32 1);
  state_roots = replicate 8 (replicate 32 1);
  historical_roots = [];
  eth1_data = eth1;
  eth1_data_votes = [];
  eth1_deposit_index = 4;
  validators = validator 0 ∷ validator 1 ∷ validator 2 ∷ validator 3 ∷ [];
  balances = 32 ∷ 32 ∷ 32 ∷ 32 ∷ [];
  randao_mixes = replicate 4 (replicate 32 2);
  slashings = replicate 4 0;
  previous_epoch_attestations = [];
  current_epoch_attestations = [];
  justification_bits = record { bit_0 = false; bit_1 = false; bit_2 = false; bit_3 = false };
  previous_justified_checkpoint = checkpoint 0;
  current_justified_checkpoint = checkpoint 0;
  finalized_checkpoint = checkpoint 0;
}

abbrev pub attestation_data : ℕ → AttestationData
attestation_data slot = record {
  slot = slot;
  index = 0;
  beacon_block_root = replicate 32 1;
  source = checkpoint 0;
  target = checkpoint 0;
}

-- The one member of the committee of its slot has attested.
abbrev pub attestation : ℕ → Attestation
attestation slot = record {
  aggregation_bits = true ∷ [];
  attestation_data = attestation_data slot;
  signature = [];
}

abbrev pub exit : ℕ → SignedVoluntaryExit
exit i = record { message = record { epoch = 1; validator_index = i }; signature = [] }

abbrev pub body : BeaconBlockBody
body = record {
  randao_reveal = [];
  eth1_data = eth1;
  graffiti = [];
  proposer_slashings = [];
  attester_slashings = [];
  attestations = [];
  deposits = [];
  voluntary_exits = [];
}

abbrev pub block : ℕ → ℕ → BeaconBlock
block slot proposer_index = record {
  slot = slot;
  proposer_index = proposer_index;
  parent_root = replicate 32 1;
  state_root = replicate 32 1;
  body = body;
}

abbrev pub signed_block : ℕ → ℕ → SignedBeaconBlock
signed_block slot proposer_index = record { message = block slot proposer_index; signature = [] }

-- A deposit with the key of the validator `n`.
abbrev pub deposit : ℕ → Deposit
deposit n = record {
  proof = [];
  deposit_data = record {
    public_key = n ∷ [];
    withdrawal_credentials = [];
    amount = 33;
    signature = [];
  };
}

-- Two blocks of the validator 3 for one slot.
abbrev pub double_proposal : ProposerSlashing
double_proposal = record {
  signed_header_1 = record {
    message = record header { slot = 1; proposer_index = 3 };
    signature = [];
  };
  signed_header_2 = record {
    message = record header { slot = 1; proposer_index = 3; body_root = replicate 32 1 };
    signature = [];
  };
}
