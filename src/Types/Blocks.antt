-- ===== src/Types/Blocks.antt =====
-- ethereum-consensus/src/phase0/beacon_block.rs: a block, its body, and the signed block.
use ethereum_consensus.Prelude.{List}
use ethereum_consensus.Prelude.Bytes.{Bytes}
use ethereum_consensus.Types.Primitives.{Root, Slot, ValidatorIndex, BlsSignature}
use ethereum_consensus.Types.Operations.{
  Eth1Data, ProposerSlashing, AttesterSlashing, Attestation, Deposit, SignedVoluntaryExit,
}

pub record BeaconBlockBody : Type 0 where
  pub randao_reveal : BlsSignature
  pub eth1_data : Eth1Data
  pub graffiti : Bytes
  pub proposer_slashings : List ProposerSlashing
  pub attester_slashings : List AttesterSlashing
  pub attestations : List Attestation
  pub deposits : List Deposit
  pub voluntary_exits : List SignedVoluntaryExit

pub record BeaconBlock : Type 0 where
  pub slot : Slot
  pub proposer_index : ValidatorIndex
  pub parent_root : Root
  pub state_root : Root
  pub body : BeaconBlockBody

pub record SignedBeaconBlock : Type 0 where
  pub message : BeaconBlock
  pub signature : BlsSignature
