-- ===== src/EpochProcessing/Matching.antt =====
-- ethereum-consensus/src/phase0/epoch_processing.rs: the pending attestations that match the
-- source, the target and the head of an epoch, and the validators behind them.
use ethereum_consensus.Prelude.{not, ◌&&◌, List, [], ◌∷◌, ◌==◌, filter, is_empty, if◌then◌else◌}
use ethereum_consensus.Prelude.Bytes.{bytes_eq}
use ethereum_consensus.Prelude.Sets.{insert}
use ethereum_consensus.Types.{Epoch, Gwei, ValidatorIndex, PendingAttestation, BeaconState}
use ethereum_consensus.Errors.{invalid_epoch}
use ethereum_consensus.Outcome.{Outcome, ok, err, index, ◌>>=◌}
use ethereum_consensus.Env.{Env}
use ethereum_consensus.Helpers.Epochs.{get_current_epoch, get_previous_epoch}
use ethereum_consensus.Helpers.Accessors.{get_block_root, get_block_root_at_slot}
use ethereum_consensus.Helpers.Balances.{get_total_balance}
use ethereum_consensus.Helpers.Attestations.{get_attesting_indices}

-- The inner loop: the indices of one attestation that are not slashed, put into the set.
unfoldable pub insert_unslashed :
    List ValidatorIndex → List ValidatorIndex → BeaconState → Outcome (List ValidatorIndex)
insert_unslashed [] output state = ok output
insert_unslashed (i ∷ indices) output state = do
  validator ← index state.validators i
  insert_unslashed indices (if not validator.slashed then insert i output else output) state

module _ (env : Env) where
  unfoldable pub get_matching_source_attestations :
      Epoch → BeaconState → Outcome (List PendingAttestation)
  get_matching_source_attestations epoch state = do
    previous_epoch ← get_previous_epoch env state
    current_epoch ← get_current_epoch env state
    if not (previous_epoch == epoch) && not (current_epoch == epoch)
        then err (invalid_epoch epoch previous_epoch current_epoch)
        else ok (
            if epoch == current_epoch
            then state.current_epoch_attestations
            else state.previous_epoch_attestations)

  unfoldable pub get_matching_target_attestations :
      Epoch → BeaconState → Outcome (List PendingAttestation)
  get_matching_target_attestations epoch state = do
    source_attestations ← get_matching_source_attestations epoch state
    if is_empty source_attestations then ok [] else do
      block_root ← get_block_root env epoch state
      ok (filter (λ a. bytes_eq a.attestation_data.target.root block_root) source_attestations)

  unfoldable pub filter_head :
      List PendingAttestation → BeaconState → Outcome (List PendingAttestation)
  filter_head [] state = ok []
  filter_head (a ∷ attestations) state = do
    root ← get_block_root_at_slot env a.attestation_data.slot state
    rest ← filter_head attestations state
    ok (if bytes_eq a.attestation_data.beacon_block_root root then a ∷ rest else rest)

  unfoldable pub get_matching_head_attestations :
      Epoch → BeaconState → Outcome (List PendingAttestation)
  get_matching_head_attestations epoch state = do
    attestations ← get_matching_target_attestations epoch state
    filter_head attestations state

  unfoldable pub unslashed_from :
      List PendingAttestation → List ValidatorIndex → BeaconState → Outcome (List ValidatorIndex)
  unslashed_from [] output state = ok output
  unslashed_from (a ∷ attestations) output state = do
    indices ← get_attesting_indices env a.attestation_data a.aggregation_bits state
    output' ← insert_unslashed indices output state
    unslashed_from attestations output' state

  unfoldable pub get_unslashed_attesting_indices :
      List PendingAttestation → BeaconState → Outcome (List ValidatorIndex)
  get_unslashed_attesting_indices attestations state = unslashed_from attestations [] state

  unfoldable pub get_attesting_balance : List PendingAttestation → BeaconState → Outcome Gwei
  get_attesting_balance attestations state = do
    indices ← get_unslashed_attesting_indices attestations state
    get_total_balance env indices state
