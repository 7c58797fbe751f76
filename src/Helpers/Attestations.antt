-- ===== src/Helpers/Attestations.antt =====
-- ethereum-consensus/src/phase0/helpers.rs: the attesting indices of an attestation, its indexed
-- form, and the check of an indexed attestation.
pub mod Indices
use ethereum_consensus.Prelude.{
  Bool, not, List, [], ◌∷◌, some, length, get_elem?, is_empty, ltb, ◌==◌, if◌then◌else◌,
}
use ethereum_consensus.Prelude.Sets.{insert}
use ethereum_consensus.Prelude.Sort.{sort}
use ethereum_consensus.Types.{
  ValidatorIndex, BlsPublicKey, AttestationData, Attestation, IndexedAttestation, BeaconState,
  beacon_attester,
}
use ethereum_consensus.Errors.{
  invalid_operation_error, attestation, bitfield, indexed_attestation, attesting_indices_empty,
  attesting_indices_not_sorted, duplicate_indices, invalid_validator_index,
}
use ethereum_consensus.Outcome.{Outcome, ok, err, ok_or, fail_if, ◌>>=◌, ◌>>◌}
use ethereum_consensus.Env.{Env, attestation_data_object}
use ethereum_consensus.Helpers.Committees.{get_beacon_committee}
use ethereum_consensus.Helpers.Domains.{get_domain, compute_signing_root}

-- The members of a committee whose bit is set, as a set.
unfoldable pub members_with_bit :
    List Bool → List ValidatorIndex → List ValidatorIndex → List ValidatorIndex
members_with_bit [] committee indices = indices
members_with_bit (bit ∷ bits) [] indices = indices
members_with_bit (bit ∷ bits) (member ∷ committee) indices =
    members_with_bit bits committee (if bit then insert member indices else indices)

-- The loop over the indices from the second on: the duplicates, or an error where two neighbours
-- stand in the wrong order.
unfoldable pub scan_indices :
    ValidatorIndex → List ValidatorIndex → List ValidatorIndex → Outcome (List ValidatorIndex)
scan_indices prev [] duplicates = ok duplicates
scan_indices prev (i ∷ indices) duplicates =
    let rest = scan_indices i indices (if i == prev then insert i duplicates else duplicates) in
    if ltb i prev
    then err (invalid_operation_error (indexed_attestation attesting_indices_not_sorted))
    else rest

-- The checks on the indices themselves.
unfoldable pub check_indices : List ValidatorIndex → Outcome (Unit {0})
check_indices [] = err (invalid_operation_error (indexed_attestation attesting_indices_empty))
check_indices (first ∷ indices) = do
  duplicates ← scan_indices first indices []
  fail_if (not (is_empty duplicates))
      (invalid_operation_error (indexed_attestation (duplicate_indices duplicates)))

unfoldable pub public_keys_of : List ValidatorIndex → BeaconState → Outcome (List BlsPublicKey)
public_keys_of [] state = ok []
public_keys_of (i ∷ indices) state = do
  validator ←
      ok_or (get_elem? state.validators i)
        (invalid_operation_error (indexed_attestation (invalid_validator_index i)))
  rest ← public_keys_of indices state
  ok (validator.public_key ∷ rest)

module _ (env : Env) where
  open env use {externals}

  unfoldable pub get_attesting_indices :
      AttestationData → List Bool → BeaconState → Outcome (List ValidatorIndex)
  get_attesting_indices d bits state = do
    committee ← get_beacon_committee env d.slot d.index state
    fail_if (not (length bits == length committee))
        (invalid_operation_error (attestation (bitfield (length committee) (length bits))))
    ok (members_with_bit bits committee [])

  unfoldable pub get_indexed_attestation : Attestation → BeaconState → Outcome IndexedAttestation
  get_indexed_attestation a state = do
    indices ← get_attesting_indices a.attestation_data a.aggregation_bits state
    ok (record {
      attesting_indices = sort indices;
      attestation_data = a.attestation_data;
      signature = a.signature;
    })

  unfoldable pub is_valid_indexed_attestation :
      IndexedAttestation → BeaconState → Outcome (Unit {0})
  is_valid_indexed_attestation a state = do
    check_indices a.attesting_indices
    public_keys ← public_keys_of a.attesting_indices state
    domain ← get_domain env beacon_attester (some a.attestation_data.target.epoch) state
    signing_root ← compute_signing_root env (attestation_data_object a.attestation_data) domain
    externals.fast_aggregate_verify public_keys signing_root a.signature
