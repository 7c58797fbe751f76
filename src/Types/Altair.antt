-- ===== src/Types/Altair.antt =====
-- ethereum-consensus/src/altair/beacon_state.rs, beacon_block.rs, sync.rs and constants.rs: the
-- state and the blocks of altair.
use ethereum_consensus.Prelude.{ℕ, Bool, List, [], ◌∷◌}
use ethereum_consensus.Prelude.Bytes.{Bytes}
use ethereum_consensus.Types.Primitives.{
  Root, Slot, ValidatorIndex, Gwei, BlsPublicKey, BlsSignature,
}
use ethereum_consensus.Types.Operations.{
  Checkpoint, Eth1Data, BeaconBlockHeader, Validator, ProposerSlashing, AttesterSlashing,
  Attestation, Deposit, SignedVoluntaryExit,
}
use ethereum_consensus.Types.States.{Fork, JustificationBits}

-- The flags of a validator in an epoch, as the bits of a byte.
abbrev pub ParticipationFlags : Type 0
ParticipationFlags = ℕ

abbrev pub timely_source_flag_index : ℕ
timely_source_flag_index = 0

abbrev pub timely_target_flag_index : ℕ
timely_target_flag_index = 1

abbrev pub timely_head_flag_index : ℕ
timely_head_flag_index = 2

abbrev pub sync_reward_weight : ℕ
sync_reward_weight = 2

abbrev pub proposer_weight : ℕ
proposer_weight = 8

abbrev pub weight_denominator : ℕ
weight_denominator = 64

-- The weights of the source, the target and the head flag.
abbrev pub participation_flag_weights : List ℕ
participation_flag_weights = 14 ∷ 26 ∷ 14 ∷ []

pub record SyncAggregate : Type 0 where
  pub sync_committee_bits : List Bool
  pub sync_committee_signature : BlsSignature

pub record SyncCommittee : Type 0 where
  pub public_keys : List BlsPublicKey
  pub aggregate_public_key : BlsPublicKey

pub record BeaconState : Type 0 where
  pub genesis_time : ℕ
  pub genesis_validators_root : Root
  pub slot : Slot
  pub fork : Fork
  pub latest_block_header : BeaconBlockHeader
  pub block_roots : List Root
  pub state_roots : List Root
  pub historical_roots : List Root
  pub eth1_data : Eth1Data
  pub eth1_data_votes : List Eth1Data
  pub eth1_deposit_index : ℕ
  pub validators : List Validator
  pub balances : List Gwei
  pub randao_mixes : List Bytes
  pub slashings : List Gwei
  pub previous_epoch_participation : List ParticipationFlags
  pub current_epoch_participation : List ParticipationFlags
  pub justification_bits : JustificationBits
  pub previous_justified_checkpoint : Checkpoint
  pub current_justified_checkpoint : Checkpoint
  pub finalized_checkpoint : Checkpoint
  pub inactivity_scores : List ℕ
  pub current_sync_committee : SyncCommittee
  pub next_sync_committee : SyncCommittee

pub record BeaconBlockBody : Type 0 where
  pub randao_reveal : BlsSignature
  pub eth1_data : Eth1Data
  pub graffiti : Bytes
  pub proposer_slashings : List ProposerSlashing
  pub attester_slashings : List AttesterSlashing
  pub attestations : List Attestation
  pub deposits : List Deposit
  pub voluntary_exits : List SignedVoluntaryExit
  pub sync_aggregate : SyncAggregate

pub record BeaconBlock : Type 0 where
  pub slot : Slot
  pub proposer_index : ValidatorIndex
  pub parent_root : Root
  pub state_root : Root
  pub body : BeaconBlockBody

pub record SignedBeaconBlock : Type 0 where
  pub message : BeaconBlock
  pub signature : BlsSignature
