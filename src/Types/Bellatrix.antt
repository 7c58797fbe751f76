-- ===== src/Types/Bellatrix.antt =====
-- ethereum-consensus/src/bellatrix/beacon_state.rs, beacon_block.rs and execution_payload.rs: the
-- execution payload, the state and the blocks of bellatrix.
use ethereum_consensus.Prelude.{ℕ, Bool, true, false, ◌&&◌, List, [], ◌∷◌, ◌==◌}
use ethereum_consensus.Prelude.Bytes.{Bytes, bytes_eq}
use ethereum_consensus.Types.Primitives.{Root, Slot, ValidatorIndex, BlsSignature}
use ethereum_consensus.Types.Operations.{
  Eth1Data, ProposerSlashing, AttesterSlashing, Attestation, Deposit, SignedVoluntaryExit,
}
use ethereum_consensus.Types.Altair as Altair

pub record ExecutionPayload : Type 0 where
  pub parent_hash : Bytes
  pub fee_recipient : Bytes
  pub state_root : Bytes
  pub receipts_root : Bytes
  pub logs_bloom : Bytes
  pub prev_randao : Bytes
  pub block_number : ℕ
  pub gas_limit : ℕ
  pub gas_used : ℕ
  pub timestamp : ℕ
  pub extra_data : Bytes
  pub base_fee_per_gas : ℕ
  pub block_hash : Bytes
  pub transactions : List Bytes

pub record ExecutionPayloadHeader : Type 0 where
  pub parent_hash : Bytes
  pub fee_recipient : Bytes
  pub state_root : Bytes
  pub receipts_root : Bytes
  pub logs_bloom : Bytes
  pub prev_randao : Bytes
  pub block_number : ℕ
  pub gas_limit : ℕ
  pub gas_used : ℕ
  pub timestamp : ℕ
  pub extra_data : Bytes
  pub base_fee_per_gas : ℕ
  pub block_hash : Bytes
  pub transactions_root : Root

-- The fields that the struct has of altair's, in its order, and then the new one.
pub record BeaconState : Type 0 where
  pub common : Altair.BeaconState
  pub latest_execution_payload_header : ExecutionPayloadHeader

pub record BeaconBlockBody : Type 0 where
  pub randao_reveal : BlsSignature
  pub eth1_data : Eth1Data
  pub graffiti : Bytes
  pub proposer_slashings : List ProposerSlashing
  pub attester_slashings : List AttesterSlashing
  pub attestations : List Attestation
  pub deposits : List Deposit
  pub voluntary_exits : List SignedVoluntaryExit
  pub sync_aggregate : Altair.SyncAggregate
  pub execution_payload : ExecutionPayload

pub record BeaconBlock : Type 0 where
  pub slot : Slot
  pub proposer_index : ValidatorIndex
  pub parent_root : Root
  pub state_root : Root
  pub body : BeaconBlockBody

pub record SignedBeaconBlock : Type 0 where
  pub message : BeaconBlock
  pub signature : BlsSignature

abbrev all_of : List Bool → Bool
all_of [] = true
all_of (test ∷ tests) = test && all_of tests

abbrev all_equal : List Bytes → List Bytes → Bool
all_equal [] [] = true
all_equal [] (y ∷ ys) = false
all_equal (x ∷ xs) [] = false
all_equal (x ∷ xs) (y ∷ ys) = bytes_eq x y && all_equal xs ys

-- The derived `PartialEq` of the header and of the payload.
unfoldable pub payload_header_eq : ExecutionPayloadHeader → ExecutionPayloadHeader → Bool
payload_header_eq a b = all_of (
    bytes_eq a.parent_hash b.parent_hash
    ∷ bytes_eq a.fee_recipient b.fee_recipient
    ∷ bytes_eq a.state_root b.state_root
    ∷ bytes_eq a.receipts_root b.receipts_root
    ∷ bytes_eq a.logs_bloom b.logs_bloom
    ∷ bytes_eq a.prev_randao b.prev_randao
    ∷ (a.block_number == b.block_number)
    ∷ (a.gas_limit == b.gas_limit)
    ∷ (a.gas_used == b.gas_used)
    ∷ (a.timestamp == b.timestamp)
    ∷ bytes_eq a.extra_data b.extra_data
    ∷ (a.base_fee_per_gas == b.base_fee_per_gas)
    ∷ bytes_eq a.block_hash b.block_hash
    ∷ bytes_eq a.transactions_root b.transactions_root
    ∷ [])

unfoldable pub payload_eq : ExecutionPayload → ExecutionPayload → Bool
payload_eq a b = all_of (
    bytes_eq a.parent_hash b.parent_hash
    ∷ bytes_eq a.fee_recipient b.fee_recipient
    ∷ bytes_eq a.state_root b.state_root
    ∷ bytes_eq a.receipts_root b.receipts_root
    ∷ bytes_eq a.logs_bloom b.logs_bloom
    ∷ bytes_eq a.prev_randao b.prev_randao
    ∷ (a.block_number == b.block_number)
    ∷ (a.gas_limit == b.gas_limit)
    ∷ (a.gas_used == b.gas_used)
    ∷ (a.timestamp == b.timestamp)
    ∷ bytes_eq a.extra_data b.extra_data
    ∷ (a.base_fee_per_gas == b.base_fee_per_gas)
    ∷ bytes_eq a.block_hash b.block_hash
    ∷ all_equal a.transactions b.transactions
    ∷ [])
