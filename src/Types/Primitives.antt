-- ===== src/Types/Primitives.antt =====
-- ethereum-consensus/src/primitives.rs, phase0/constants.rs and domains.rs: the scalar types, the
-- constants, and the signature domains. A root, a version, a key and a signature are byte strings.
use ethereum_consensus.Prelude.{ℕ, [], ◌∷◌, ◌^◌, replicate, u64_max}
use ethereum_consensus.Prelude.Bytes.{Bytes, to_le_bytes}

abbrev pub Root : Type 0
Root = Bytes

abbrev pub Slot : Type 0
Slot = ℕ

abbrev pub Epoch : Type 0
Epoch = ℕ

abbrev pub CommitteeIndex : Type 0
CommitteeIndex = ℕ

abbrev pub ValidatorIndex : Type 0
ValidatorIndex = ℕ

abbrev pub Gwei : Type 0
Gwei = ℕ

abbrev pub Version : Type 0
Version = Bytes

abbrev pub Domain : Type 0
Domain = Bytes

abbrev pub BlsPublicKey : Type 0
BlsPublicKey = Bytes

abbrev pub BlsSignature : Type 0
BlsSignature = Bytes

-- `Root::default()`: thirty-two zero bytes.
abbrev pub default_root : Root
default_root = replicate 32 0

abbrev pub genesis_epoch : Epoch
genesis_epoch = 0

abbrev pub far_future_epoch : Epoch
far_future_epoch = u64_max

abbrev pub base_rewards_per_epoch : ℕ
base_rewards_per_epoch = 4

abbrev pub deposit_contract_tree_depth : ℕ
deposit_contract_tree_depth = 2 ^ 5

pub data DomainType : Type 0 where
  beacon_proposer beacon_attester randao deposit voluntary_exit selection_proof : DomainType
  aggregate_and_proof sync_committee sync_committee_selection_proof : DomainType
  contribution_and_proof bls_to_execution_change blob_sidecar : DomainType
  application_mask application_builder : DomainType

-- `*self as u32`, the place of the variant in the enumeration.
abbrev pub discriminant : DomainType → ℕ
discriminant beacon_proposer = 0
discriminant beacon_attester = 1
discriminant randao = 2
discriminant deposit = 3
discriminant voluntary_exit = 4
discriminant selection_proof = 5
discriminant aggregate_and_proof = 6
discriminant sync_committee = 7
discriminant sync_committee_selection_proof = 8
discriminant contribution_and_proof = 9
discriminant bls_to_execution_change = 10
discriminant blob_sidecar = 11
discriminant application_mask = 12
discriminant application_builder = 13

-- `DomainType::as_bytes`
unfoldable pub as_bytes : DomainType → Bytes
unfolding to_le_bytes
as_bytes application_mask = 0 ∷ 0 ∷ 0 ∷ 1 ∷ []
as_bytes application_builder = 0 ∷ 0 ∷ 0 ∷ 1 ∷ []
as_bytes d = to_le_bytes 4 (discriminant d)
