-- ===== src/Env.antt =====
-- What every function is given: the configuration, the const generics, and the code of other
-- crates. `hash` is SHA-256 (sha2, behind crypto.rs), the signature checks are those of blst,
-- `hash_tree_root` and the Merkle branch check those of ssz_rs, and `integer_sqrt` is that of
-- integer-sqrt. `proposer_fuel` bounds the rounds of the two loops with no bound in the source,
-- over the candidates for the proposer and for the sync committee.
use ethereum_consensus.Prelude.{ℕ, ◌≡◌, ◌<◌, Bool, some, List, length, get_elem?}
use ethereum_consensus.Prelude.Bytes.{Bytes}
use ethereum_consensus.Types.{
  Root, Epoch, BlsPublicKey, BlsSignature, Context, Generics, AttestationData, BeaconBlock,
  BeaconBlockBody, BeaconBlockHeader, BeaconState, DepositData, DepositMessage, ForkData,
  HistoricalSummary, SigningData, Validator, VoluntaryExit,
}
use ethereum_consensus.Types.Altair as Altair
use ethereum_consensus.Types.Bellatrix as Bellatrix
use ethereum_consensus.Outcome.{Outcome}

-- The values of which the code takes a hash tree root.
pub data SszObject : Type 0 where
  state_object : BeaconState → SszObject
  header_object : BeaconBlockHeader → SszObject
  block_object : BeaconBlock → SszObject
  body_object : BeaconBlockBody → SszObject
  roots_object : List Root → SszObject
  historical_summary_object : HistoricalSummary → SszObject
  attestation_data_object : AttestationData → SszObject
  deposit_data_object : DepositData → SszObject
  deposit_message_object : DepositMessage → SszObject
  voluntary_exit_object : VoluntaryExit → SszObject
  epoch_object : Epoch → SszObject
  root_object : Root → SszObject
  validators_object : List Validator → SszObject
  deposit_data_list_object : List DepositData → SszObject
  altair_state_object : Altair.BeaconState → SszObject
  altair_block_object : Altair.BeaconBlock → SszObject
  altair_body_object : Altair.BeaconBlockBody → SszObject
  bellatrix_state_object : Bellatrix.BeaconState → SszObject
  bellatrix_block_object : Bellatrix.BeaconBlock → SszObject
  bellatrix_body_object : Bellatrix.BeaconBlockBody → SszObject
  transactions_object : List Bytes → SszObject
  fork_data_object : ForkData → SszObject
  signing_data_object : SigningData → SszObject

pub record Externals : Type 0 where
  pub hash : Bytes → Bytes
  pub hash_tree_root : SszObject → Outcome Root
  pub verify_signature : BlsPublicKey → Bytes → BlsSignature → Outcome (Unit {0})
  pub fast_aggregate_verify : List BlsPublicKey → Bytes → BlsSignature → Outcome (Unit {0})
  pub is_valid_merkle_branch : Root → List Root → ℕ → ℕ → Root → Bool
  pub aggregate_public_keys : List BlsPublicKey → Outcome BlsPublicKey
  pub integer_sqrt : ℕ → ℕ

pub record Env : Type 0 where
  pub context : Context
  pub generics : Generics
  pub externals : Externals
  pub proposer_fuel : ℕ

-- SHA-256 returns thirty-two bytes.
pub record IsSha256 (hash : Bytes → Bytes) : Type 0 where
  pub length_is : (b : Bytes) → length (hash b) ≡ 32
  pub bytes_are : (b : Bytes) (i : ℕ) {x : ℕ} → get_elem? (hash b) i ≡ some x → x < 256
