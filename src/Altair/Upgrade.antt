-- ===== src/Altair/Upgrade.antt =====
-- ethereum-consensus/src/altair/fork.rs: the upgrade of a phase0 state. The state of altair is local
-- to the function, and is dropped where it ends in an error.
pub mod Preserves
use ethereum_consensus.Prelude.{List, [], ◌∷◌, length, replicate, set, ℕ}
use ethereum_consensus.Types.{Epoch, BeaconState, PendingAttestation, ValidatorIndex}
use ethereum_consensus.Types.Altair as Altair
use ethereum_consensus.Outcome
use ethereum_consensus.Outcome.{Outcome, ok, err, fault, index}
use ethereum_consensus.Action.{StateAction, read, modify, pure, ◌>>=◌, ◌>>◌}
use ethereum_consensus.Env.{Env}
use ethereum_consensus.Helpers.Epochs.{get_current_epoch}
use ethereum_consensus.Altair.Spec.{get_attesting_indices}
use ethereum_consensus.Altair.Flags.{add_flag}
use ethereum_consensus.Altair.Participation.{get_attestation_participation_flag_indices}
use ethereum_consensus.Altair.SyncCommittee.{get_next_sync_committee}

-- `state.previous_epoch_participation[index] = flags`
unfoldable pub set_previous_flags :
    ValidatorIndex → Altair.ParticipationFlags → Altair.BeaconState → Altair.BeaconState
set_previous_flags i flags state = record state {
  previous_epoch_participation = set state.previous_epoch_participation i flags;
}

-- The loop over the flags that an attestation has earned.
unfoldable pub translate_flags : ValidatorIndex → List ℕ → StateAction Altair.BeaconState (Unit {0})
translate_flags i [] = pure tt
translate_flags i (flag_index ∷ flag_indices) = do
  flags ← read (λ state. index state.previous_epoch_participation i)
  modify (set_previous_flags i (add_flag flags flag_index))
  translate_flags i flag_indices

unfoldable pub translate_attesters :
    List ℕ → List ValidatorIndex → StateAction Altair.BeaconState (Unit {0})
translate_attesters flag_indices [] = pure tt
translate_attesters flag_indices (i ∷ indices) =
    translate_flags i flag_indices >> translate_attesters flag_indices indices

unfoldable pub with_sync_committees : Altair.SyncCommittee → Altair.BeaconState → Altair.BeaconState
with_sync_committees committee state = record state {
  current_sync_committee = committee;
  next_sync_committee = committee;
}

-- What a local state has become, where the action on it was successful.
unfoldable pub final_state : Outcome (Unit {0}) × Altair.BeaconState → Outcome Altair.BeaconState
final_state (ok u, state) = ok state
final_state (err e, state) = err e
final_state (fault cause, state) = fault cause

module _ (env : Env) where
  open env use {context, generics}

  unfoldable pub translate_participation :
      List PendingAttestation → StateAction Altair.BeaconState (Unit {0})
  translate_participation [] = pure tt
  translate_participation (a ∷ pending) = do
    let d = a.attestation_data
    flag_indices ← read (get_attestation_participation_flag_indices env d a.inclusion_delay)
    indices ← read (get_attesting_indices env d a.aggregation_bits)
    translate_attesters flag_indices indices
    translate_participation pending

  -- `Default::default()`: keys of forty-eight zero bytes
  unfoldable pub default_sync_committee : Altair.SyncCommittee
  default_sync_committee = record {
    public_keys = replicate generics.sync_committee_size (replicate 48 0);
    aggregate_public_key = replicate 48 0;
  }

  -- The state that the loop over the pending attestations starts from.
  unfoldable pub initial_state : Epoch → BeaconState → Altair.BeaconState
  initial_state epoch state = record {
    genesis_time = state.genesis_time;
    genesis_validators_root = state.genesis_validators_root;
    slot = state.slot;
    fork = record {
      previous_version = state.fork.current_version;
      current_version = context.altair_fork_version;
      epoch = epoch;
    };
    latest_block_header = state.latest_block_header;
    block_roots = state.block_roots;
    state_roots = state.state_roots;
    historical_roots = state.historical_roots;
    eth1_data = state.eth1_data;
    eth1_data_votes = state.eth1_data_votes;
    eth1_deposit_index = state.eth1_deposit_index;
    validators = state.validators;
    balances = state.balances;
    randao_mixes = state.randao_mixes;
    slashings = state.slashings;
    previous_epoch_participation = replicate (length state.validators) 0;
    current_epoch_participation = replicate (length state.validators) 0;
    justification_bits = state.justification_bits;
    previous_justified_checkpoint = state.previous_justified_checkpoint;
    current_justified_checkpoint = state.current_justified_checkpoint;
    finalized_checkpoint = state.finalized_checkpoint;
    inactivity_scores = replicate (length state.validators) 0;
    current_sync_committee = default_sync_committee;
    next_sync_committee = default_sync_committee;
  }

  -- What the function does with the local state.
  unfoldable pub complete_upgrade :
      List PendingAttestation → StateAction Altair.BeaconState (Unit {0})
  complete_upgrade pending = do
    translate_participation pending
    committee ← read (get_next_sync_committee env)
    modify (with_sync_committees committee)

  unfoldable pub upgrade_to_altair : BeaconState → Outcome Altair.BeaconState
  upgrade_to_altair state = Outcome.◌>>=◌ (get_current_epoch env state) λ epoch.
      final_state (complete_upgrade state.previous_epoch_attestations (initial_state epoch state))
