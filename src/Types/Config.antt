-- ===== src/Types/Config.antt =====
-- ethereum-consensus/src/state_transition/context.rs and mod.rs: the part of the chain's
-- configuration that the modelled code reads, the const generics of the state, and the switch that
-- turns validation off.
use ethereum_consensus.Prelude.{ℕ}
use ethereum_consensus.Types.Primitives.{Slot, Epoch, Gwei, Version}

pub record Context : Type 0 where
  pub max_committees_per_slot : ℕ
  pub target_committee_size : ℕ
  pub shuffle_round_count : ℕ
  pub hysteresis_quotient : ℕ
  pub hysteresis_downward_multiplier : ℕ
  pub hysteresis_upward_multiplier : ℕ
  pub max_effective_balance : Gwei
  pub effective_balance_increment : Gwei
  pub min_attestation_inclusion_delay : Slot
  pub slots_per_epoch : Slot
  pub min_seed_lookahead : Epoch
  pub max_seed_lookahead : Epoch
  pub min_epochs_to_inactivity_penalty : Epoch
  pub epochs_per_eth1_voting_period : Epoch
  pub slots_per_historical_root : Slot
  pub epochs_per_historical_vector : Epoch
  pub epochs_per_slashings_vector : Epoch
  pub base_reward_factor : ℕ
  pub whistleblower_reward_quotient : ℕ
  pub proposer_reward_quotient : ℕ
  pub inactivity_penalty_quotient : ℕ
  pub min_slashing_penalty_quotient : ℕ
  pub proportional_slashing_multiplier : ℕ
  pub max_deposits : ℕ
  pub inactivity_penalty_quotient_altair : ℕ
  pub min_slashing_penalty_quotient_altair : ℕ
  pub proportional_slashing_multiplier_altair : ℕ
  pub inactivity_penalty_quotient_bellatrix : ℕ
  pub min_slashing_penalty_quotient_bellatrix : ℕ
  pub proportional_slashing_multiplier_bellatrix : ℕ
  pub sync_committee_size : ℕ
  pub epochs_per_sync_committee_period : Epoch
  pub min_genesis_active_validator_count : ℕ
  pub min_genesis_time : ℕ
  pub genesis_fork_version : Version
  pub genesis_delay : ℕ
  pub altair_fork_version : Version
  pub altair_fork_epoch : Epoch
  pub bellatrix_fork_version : Version
  pub bellatrix_fork_epoch : Epoch
  pub capella_fork_version : Version
  pub capella_fork_epoch : Epoch
  pub deneb_fork_version : Version
  pub deneb_fork_epoch : Epoch
  pub seconds_per_slot : ℕ
  pub min_validator_withdrawability_delay : Epoch
  pub shard_committee_period : Epoch
  pub inactivity_score_bias : ℕ
  pub inactivity_score_recovery_rate : ℕ
  pub ejection_balance : Gwei
  pub min_per_epoch_churn_limit : ℕ
  pub churn_limit_quotient : ℕ

-- The const generics of `BeaconState` that the functions read as values.
pub record Generics : Type 0 where
  pub slots_per_historical_root : ℕ
  pub epochs_per_historical_vector : ℕ
  pub epochs_per_slashings_vector : ℕ
  pub sync_committee_size : ℕ
  pub bytes_per_logs_bloom : ℕ

pub data Validation : Type 0 where
  enabled disabled : Validation
