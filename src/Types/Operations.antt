-- ===== src/Types/Operations.antt =====
-- ethereum-consensus/src/phase0/operations.rs and validator.rs, and the headers of beacon_block.rs
-- that a proposer slashing carries. The SSZ limits on the lengths of the lists are left out.
use ethereum_consensus.Prelude.{ℕ, Bool, ◌&&◌, List, ◌==◌}
use ethereum_consensus.Prelude.Bytes.{Bytes, bytes_eq}
use ethereum_consensus.Types.Primitives.{
  Root, Slot, Epoch, CommitteeIndex, ValidatorIndex, Gwei, BlsPublicKey, BlsSignature,
}

pub record Checkpoint : Type 0 where
  pub epoch : Epoch
  pub root : Root

pub record AttestationData : Type 0 where
  pub slot : Slot
  pub index : CommitteeIndex
  pub beacon_block_root : Root
  pub source : Checkpoint
  pub target : Checkpoint

pub record IndexedAttestation : Type 0 where
  pub attesting_indices : List ValidatorIndex
  pub attestation_data : AttestationData
  pub signature : BlsSignature

pub record PendingAttestation : Type 0 where
  pub aggregation_bits : List Bool
  pub attestation_data : AttestationData
  pub inclusion_delay : Slot
  pub proposer_index : ValidatorIndex

pub record Attestation : Type 0 where
  pub aggregation_bits : List Bool
  pub attestation_data : AttestationData
  pub signature : BlsSignature

pub record Eth1Data : Type 0 where
  pub deposit_root : Root
  pub deposit_count : ℕ
  pub block_hash : Bytes

pub record DepositMessage : Type 0 where
  pub public_key : BlsPublicKey
  pub withdrawal_credentials : Bytes
  pub amount : Gwei

pub record DepositData : Type 0 where
  pub public_key : BlsPublicKey
  pub withdrawal_credentials : Bytes
  pub amount : Gwei
  pub signature : BlsSignature

pub record BeaconBlockHeader : Type 0 where
  pub slot : Slot
  pub proposer_index : ValidatorIndex
  pub parent_root : Root
  pub state_root : Root
  pub body_root : Root

pub record SignedBeaconBlockHeader : Type 0 where
  pub message : BeaconBlockHeader
  pub signature : BlsSignature

pub record ProposerSlashing : Type 0 where
  pub signed_header_1 : SignedBeaconBlockHeader
  pub signed_header_2 : SignedBeaconBlockHeader

pub record AttesterSlashing : Type 0 where
  pub attestation_1 : IndexedAttestation
  pub attestation_2 : IndexedAttestation

pub record Deposit : Type 0 where
  pub proof : List Bytes
  pub deposit_data : DepositData

pub record VoluntaryExit : Type 0 where
  pub epoch : Epoch
  pub validator_index : ValidatorIndex

pub record SignedVoluntaryExit : Type 0 where
  pub message : VoluntaryExit
  pub signature : BlsSignature

pub record Validator : Type 0 where
  pub public_key : BlsPublicKey
  pub withdrawal_credentials : Bytes
  pub effective_balance : Gwei
  pub slashed : Bool
  pub activation_eligibility_epoch : Epoch
  pub activation_epoch : Epoch
  pub exit_epoch : Epoch
  pub withdrawable_epoch : Epoch

-- The derived `PartialEq` of each record that the code compares.
unfoldable pub checkpoint_eq : Checkpoint → Checkpoint → Bool
checkpoint_eq a b = a.epoch == b.epoch && bytes_eq a.root b.root

unfoldable pub attestation_data_eq : AttestationData → AttestationData → Bool
attestation_data_eq a b =
    a.slot == b.slot
    && (a.index == b.index
        && (bytes_eq a.beacon_block_root b.beacon_block_root
            && (checkpoint_eq a.source b.source && checkpoint_eq a.target b.target)))

unfoldable pub eth1_data_eq : Eth1Data → Eth1Data → Bool
eth1_data_eq a b =
    bytes_eq a.deposit_root b.deposit_root
    && (a.deposit_count == b.deposit_count && bytes_eq a.block_hash b.block_hash)

unfoldable pub header_eq : BeaconBlockHeader → BeaconBlockHeader → Bool
header_eq a b =
    a.slot == b.slot
    && (a.proposer_index == b.proposer_index
        && (bytes_eq a.parent_root b.parent_root
            && (bytes_eq a.state_root b.state_root && bytes_eq a.body_root b.body_root)))
