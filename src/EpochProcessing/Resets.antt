-- ===== src/EpochProcessing/Resets.antt =====
-- ethereum-consensus/src/phase0/epoch_processing.rs: the resets and rotations at the end of an epoch.
pub mod Shape
use ethereum_consensus.Prelude.{ℕ, [], ◌∷◌, ◌++◌, set, ◌==◌, if◌then◌else◌, wrapping_add}
use ethereum_consensus.Prelude.Bytes.{Bytes}
use ethereum_consensus.Types.{Root, BeaconState}
use ethereum_consensus.Outcome.{index, div, rem}
use ethereum_consensus.Action.{Action, read, lift, modify, pure, ◌>>=◌}
use ethereum_consensus.Env.{Env, roots_object, historical_summary_object}
use ethereum_consensus.Helpers.Epochs.{get_current_epoch}
use ethereum_consensus.Helpers.Accessors.{get_randao_mix}
use ethereum_consensus.Helpers.Exits.{with_slashings}

unfoldable pub clear_votes : BeaconState → BeaconState
clear_votes state = record state { eth1_data_votes = [] }

-- `state.randao_mixes[i] = mix`, and `state.slashings[i] = 0`: both panic out of bounds.
unfoldable pub write_mix : ℕ → Bytes → Action (Unit {0})
write_mix i mix = do
  _ ← read (λ state. index state.randao_mixes i)
  modify (λ state. record state { randao_mixes = set state.randao_mixes i mix })

unfoldable pub clear_slashing : ℕ → Action (Unit {0})
clear_slashing i = do
  _ ← read (λ state. index state.slashings i)
  modify (λ state. with_slashings (set state.slashings i 0) state)

unfoldable pub push_historical_root : Root → BeaconState → BeaconState
push_historical_root root state = record state {
  historical_roots = state.historical_roots ++ root ∷ [];
}

unfoldable pub process_participation_record_updates : Action (Unit {0})
process_participation_record_updates = modify λ state. record state {
  previous_epoch_attestations = state.current_epoch_attestations;
  current_epoch_attestations = [];
}

module _ (env : Env) where
  open env use {context, externals}

  unfoldable pub process_eth1_data_reset : Action (Unit {0})
  process_eth1_data_reset = do
    current_epoch ← read (get_current_epoch env)
    phase ← lift (rem (wrapping_add current_epoch 1) context.epochs_per_eth1_voting_period)
    if phase == 0 then modify clear_votes else pure tt

  unfoldable pub process_slashings_reset : Action (Unit {0})
  process_slashings_reset = do
    current_epoch ← read (get_current_epoch env)
    i ← lift (rem (wrapping_add current_epoch 1) context.epochs_per_slashings_vector)
    clear_slashing i

  unfoldable pub process_randao_mixes_reset : Action (Unit {0})
  process_randao_mixes_reset = do
    current_epoch ← read (get_current_epoch env)
    i ← lift (rem (wrapping_add current_epoch 1) context.epochs_per_historical_vector)
    mix ← read (get_randao_mix env current_epoch)
    write_mix i mix

  unfoldable pub process_historical_roots_update : Action (Unit {0})
  process_historical_roots_update = do
    current_epoch ← read (get_current_epoch env)
    epochs_per_root ← lift (div context.slots_per_historical_root context.slots_per_epoch)
    phase ← lift (rem (wrapping_add current_epoch 1) epochs_per_root)
    if phase == 0
        then (do
          block_root ← read (λ state. externals.hash_tree_root (roots_object state.block_roots))
          state_root ← read (λ state. externals.hash_tree_root (roots_object state.state_roots))
          root ← lift (
              externals.hash_tree_root (
                historical_summary_object
                  (record { block_summary_root = block_root; state_summary_root = state_root })))
          modify (push_historical_root root))
        else pure tt
