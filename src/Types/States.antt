-- ===== src/Types/States.antt =====
-- ethereum-consensus/src/phase0/beacon_state.rs: the beacon state. A `Vector` is a list, whose
-- length an invariant states; the four justification bits are a record.
use ethereum_consensus.Prelude.{ℕ, Bool, List}
use ethereum_consensus.Prelude.Bytes.{Bytes}
use ethereum_consensus.Types.Primitives.{Root, Slot, Epoch, Gwei, Version, Domain}
use ethereum_consensus.Types.Operations.{
  Checkpoint, Eth1Data, PendingAttestation, BeaconBlockHeader, Validator,
}

pub record Fork : Type 0 where
  pub previous_version : Version
  pub current_version : Version
  pub epoch : Epoch

pub record ForkData : Type 0 where
  pub current_version : Version
  pub genesis_validators_root : Root

pub record HistoricalSummary : Type 0 where
  pub block_summary_root : Root
  pub state_summary_root : Root

-- signing.rs
pub record SigningData : Type 0 where
  pub object_root : Root
  pub domain : Domain

-- `Bitvector<JUSTIFICATION_BITS_LENGTH>`
pub record JustificationBits : Type 0 where
  pub bit_0 : Bool
  pub bit_1 : Bool
  pub bit_2 : Bool
  pub bit_3 : Bool

pub record BeaconState : Type 0 where
  pub genesis_time : ℕ
  pub genesis_validators_root : Root
  pub slot : Slot
  pub fork : Fork
  pub latest_block_header : BeaconBlockHeader
  pub block_roots : List Root
  pub state_roots : List Root
  pub historical_roots : List Root
  pub eth1_data : Eth1Data
  pub eth1_data_votes : List Eth1Data
  pub eth1_deposit_index : ℕ
  pub validators : List Validator
  pub balances : List Gwei
  pub randao_mixes : List Bytes
  pub slashings : List Gwei
  pub previous_epoch_attestations : List PendingAttestation
  pub current_epoch_attestations : List PendingAttestation
  pub justification_bits : JustificationBits
  pub previous_justified_checkpoint : Checkpoint
  pub current_justified_checkpoint : Checkpoint
  pub finalized_checkpoint : Checkpoint
