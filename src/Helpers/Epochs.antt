-- ===== src/Helpers/Epochs.antt =====
-- ethereum-consensus/src/phase0/helpers.rs: slots and epochs.
use ethereum_consensus.Prelude.{◌-◌, ◌==◌, if◌then◌else◌, wrapping_add, wrapping_mul}
use ethereum_consensus.Types.{Slot, Epoch, BeaconState, genesis_epoch}
use ethereum_consensus.Outcome.{Outcome, ok, div, ◌>>=◌}
use ethereum_consensus.Env.{Env}

module _ (env : Env) where
  open env use {context}

  unfoldable pub compute_epoch_at_slot : Slot → Outcome Epoch
  compute_epoch_at_slot slot = div slot context.slots_per_epoch

  unfoldable pub compute_start_slot_at_epoch : Epoch → Slot
  compute_start_slot_at_epoch epoch = wrapping_mul epoch context.slots_per_epoch

  unfoldable pub compute_activation_exit_epoch : Epoch → Epoch
  compute_activation_exit_epoch epoch =
      wrapping_add (wrapping_add epoch 1) context.max_seed_lookahead

  unfoldable pub get_current_epoch : BeaconState → Outcome Epoch
  get_current_epoch state = compute_epoch_at_slot state.slot

  unfoldable pub get_previous_epoch : BeaconState → Outcome Epoch
  get_previous_epoch state = do
    current_epoch ← get_current_epoch state
    ok (if current_epoch == genesis_epoch then genesis_epoch else current_epoch - 1)
