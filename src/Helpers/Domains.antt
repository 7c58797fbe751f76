-- ===== src/Helpers/Domains.antt =====
-- ethereum-consensus/src/phase0/helpers.rs and signing.rs: signature domains, signing roots, and
-- the signature of a block.
use ethereum_consensus.Prelude.{
  Option, none, some, ◌++◌, length, take, ltb, get_elem?, if◌then◌else◌,
}
use ethereum_consensus.Prelude.Bytes.{Bytes}
use ethereum_consensus.Types.{
  Root, Epoch, Version, Domain, DomainType, BlsPublicKey, BlsSignature, BeaconState,
  SignedBeaconBlock, as_bytes, default_root, beacon_proposer,
}
use ethereum_consensus.Errors.{out_of_bounds}
use ethereum_consensus.Outcome.{Outcome, ok, ok_or, ◌>>=◌}
use ethereum_consensus.Env.{Env, SszObject, fork_data_object, signing_data_object, block_object}
use ethereum_consensus.Helpers.Epochs.{get_current_epoch}

-- `option.unwrap_or(default)`
abbrev pub unwrap_or : {A : Type 0} → Option A → A → A
unwrap_or none a = a
unwrap_or (some a) b = a

module _ (env : Env) where
  open env use {context, externals}

  unfoldable pub compute_fork_data_root : Version → Root → Outcome Root
  compute_fork_data_root current_version genesis_validators_root = externals.hash_tree_root (
      fork_data_object (record {
        current_version = current_version;
        genesis_validators_root = genesis_validators_root;
      }))

  unfoldable pub compute_fork_digest : Version → Root → Outcome Bytes
  compute_fork_digest current_version genesis_validators_root = do
    fork_data_root ← compute_fork_data_root current_version genesis_validators_root
    ok (take 4 fork_data_root)

  unfoldable pub compute_domain : DomainType → Option Version → Option Root → Outcome Domain
  compute_domain domain_type fork_version genesis_validators_root = do
    let version = unwrap_or fork_version context.genesis_fork_version
    let root = unwrap_or genesis_validators_root default_root
    fork_data_root ← compute_fork_data_root version root
    ok (as_bytes domain_type ++ take 28 fork_data_root)

  -- `epoch.unwrap_or_else(|| get_current_epoch(state, context))`
  unfoldable pub epoch_or_current : Option Epoch → BeaconState → Outcome Epoch
  epoch_or_current none state = get_current_epoch env state
  epoch_or_current (some epoch) state = ok epoch

  unfoldable pub get_domain : DomainType → Option Epoch → BeaconState → Outcome Domain
  get_domain domain_type given state = do
    epoch ← epoch_or_current given state
    let previous = state.fork.previous_version
    let version = if ltb epoch state.fork.epoch then previous else state.fork.current_version
    compute_domain domain_type (some version) (some state.genesis_validators_root)

  unfoldable pub compute_signing_root : SszObject → Domain → Outcome Root
  compute_signing_root ssz_object domain = do
    object_root ← externals.hash_tree_root ssz_object
    externals.hash_tree_root
        (signing_data_object (record { object_root = object_root; domain = domain }))

  unfoldable pub verify_signed_data :
      SszObject → BlsSignature → BlsPublicKey → Domain → Outcome (Unit {0})
  verify_signed_data ssz_object signature public_key domain = do
    signing_root ← compute_signing_root ssz_object domain
    externals.verify_signature public_key signing_root signature

  unfoldable pub verify_block_signature : SignedBeaconBlock → BeaconState → Outcome (Unit {0})
  verify_block_signature signed_block state = do
    let proposer_index = signed_block.message.proposer_index
    proposer ←
        ok_or (get_elem? state.validators proposer_index)
          (out_of_bounds proposer_index (length state.validators))
    domain ← get_domain beacon_proposer none state
    signing_root ← compute_signing_root (block_object signed_block.message) domain
    externals.verify_signature proposer.public_key signing_root signed_block.signature
