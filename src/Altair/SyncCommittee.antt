-- ===== src/Altair/SyncCommittee.antt =====
-- ethereum-consensus/src/altair/helpers.rs and crypto.rs: the next sync committee. The loop over
-- the candidates has no bound in the source; `proposer_fuel` bounds its rounds here. A candidate
-- and the test that it must pass are those of the choice of the proposer.
pub mod Members
use ethereum_consensus.Prelude.{
  ℕ, zero, suc, ◌+◌, not, List, [], ◌∷◌, ◌++◌, length, is_empty, ltb, ◌==◌, if◌then◌else◌,
  wrapping_add,
}
use ethereum_consensus.Prelude.Bytes.{Bytes}
use ethereum_consensus.Types.{BlsPublicKey, ValidatorIndex, Validator, sync_committee}
use ethereum_consensus.Types.Altair.{BeaconState, SyncCommittee}
use ethereum_consensus.Errors.{simple_serialize, crypto}
use ethereum_consensus.Outcome.{Outcome, ok, fault, out_of_fuel, fail_if, index, ◌>>=◌, ◌>>◌}
use ethereum_consensus.Env.{Env}
use ethereum_consensus.Helpers.Committees.{candidate_at, is_accepted}
use ethereum_consensus.Altair.Shared.{shared}
use ethereum_consensus.Altair.Spec.{get_active_validator_indices, get_current_epoch, get_seed}

unfoldable pub public_keys_at : List Validator → List ValidatorIndex → Outcome (List BlsPublicKey)
public_keys_at validators [] = ok []
public_keys_at validators (i ∷ indices) = do
  v ← index validators i
  rest ← public_keys_at validators indices
  ok (v.public_key ∷ rest)

module _ (env : Env) where
  open env use {context, generics, externals}

  -- The `while` loop from round `i`, with the members found so far.
  unfoldable pub sync_committee_loop :
      ℕ
      → List ValidatorIndex
      → Bytes
      → BeaconState
      → ℕ
      → List ValidatorIndex
      → Outcome (List ValidatorIndex)
  sync_committee_loop zero active seed state i members =
      if ltb (length members) context.sync_committee_size then fault out_of_fuel else ok members
  sync_committee_loop (suc fuel) active seed state i members =
      let rest = (λ (more : List ValidatorIndex).
        sync_committee_loop fuel active seed state (wrapping_add i 1) more) in
      if ltb (length members) context.sync_committee_size
      then (do
        candidate ← candidate_at env active seed i (shared state)
        accepted ← is_accepted env candidate seed i (shared state)
        rest (if accepted then members ++ candidate ∷ [] else members))
      else ok members

  unfoldable pub get_next_sync_committee_indices : BeaconState → Outcome (List ValidatorIndex)
  get_next_sync_committee_indices state = do
    current_epoch ← get_current_epoch env state
    let epoch = wrapping_add current_epoch 1
    seed ← get_seed env epoch sync_committee state
    let active = get_active_validator_indices epoch state
    sync_committee_loop env.proposer_fuel active seed state 0 []

  -- crypto.rs
  unfoldable pub eth_aggregate_public_keys : List BlsPublicKey → Outcome BlsPublicKey
  eth_aggregate_public_keys public_keys = do
    fail_if (is_empty public_keys) crypto
    externals.aggregate_public_keys public_keys

  unfoldable pub get_next_sync_committee : BeaconState → Outcome SyncCommittee
  get_next_sync_committee state = do
    indices ← get_next_sync_committee_indices state
    public_keys ← public_keys_at state.validators indices
    fail_if (not (length public_keys == generics.sync_committee_size)) simple_serialize
    aggregate ← eth_aggregate_public_keys public_keys
    ok (record { public_keys = public_keys; aggregate_public_key = aggregate })
