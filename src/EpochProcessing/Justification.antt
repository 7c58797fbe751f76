-- ===== src/EpochProcessing/Justification.antt =====
-- ethereum-consensus/src/phase0/epoch_processing.rs: justification and finalization. The function
-- is cut where the source sets off its parts: the shift of the bits, the two justifications, and
-- the four rules of finalization.
pub mod Weighing
pub mod Justified
pub mod Finality
pub mod Shape
use ethereum_consensus.Prelude.{
  ◌+◌, true, false, ◌&&◌, ◌==◌, leb, if◌then◌else◌, wrapping_add, wrapping_mul,
}
use ethereum_consensus.Types.{
  Epoch, Gwei, Checkpoint, JustificationBits, BeaconState, genesis_epoch,
}
use ethereum_consensus.Action.{Action, read, modify, gets, pure, ◌>>=◌, ◌>>◌}
use ethereum_consensus.Env.{Env}
use ethereum_consensus.Helpers.Epochs.{get_current_epoch, get_previous_epoch}
use ethereum_consensus.Helpers.Accessors.{get_block_root}
use ethereum_consensus.Helpers.Balances.{get_total_active_balance}
use ethereum_consensus.EpochProcessing.Matching.{
  get_matching_target_attestations, get_attesting_balance,
}

-- `copy_within(..3, 1)`, then `set(0, false)`
unfoldable pub shift_bits : JustificationBits → JustificationBits
shift_bits bits = record {
  bit_0 = false;
  bit_1 = bits.bit_0;
  bit_2 = bits.bit_1;
  bit_3 = bits.bit_2;
}

unfoldable pub begin_justification : BeaconState → BeaconState
begin_justification state = record state {
  previous_justified_checkpoint = state.current_justified_checkpoint;
  justification_bits = shift_bits state.justification_bits;
}

unfoldable pub justify_previous : Checkpoint → BeaconState → BeaconState
justify_previous checkpoint state = record state {
  current_justified_checkpoint = checkpoint;
  justification_bits = record state.justification_bits { bit_1 = true };
}

unfoldable pub justify_current : Checkpoint → BeaconState → BeaconState
justify_current checkpoint state = record state {
  current_justified_checkpoint = checkpoint;
  justification_bits = record state.justification_bits { bit_0 = true };
}

-- The checkpoint that is final after the four rules, which the source tries in this order.
unfoldable pub finalize :
    JustificationBits → Epoch → (old_previous old_current finalized : Checkpoint) → Checkpoint
finalize bits current_epoch old_previous old_current finalized =
    let rule_1 =
      bits.bit_1
      && (bits.bit_2 && bits.bit_3)
      && wrapping_add old_previous.epoch 3 == current_epoch in
    let rule_2 = bits.bit_1 && bits.bit_2 && wrapping_add old_previous.epoch 2 == current_epoch in
    let rule_3 =
      bits.bit_0
      && (bits.bit_1 && bits.bit_2)
      && wrapping_add old_current.epoch 2 == current_epoch in
    let rule_4 = bits.bit_0 && bits.bit_1 && wrapping_add old_current.epoch 1 == current_epoch in
    let after_1 = if rule_1 then old_previous else finalized in
    let after_2 = if rule_2 then old_previous else after_1 in
    let after_3 = if rule_3 then old_current else after_2 in if rule_4 then old_current else after_3

unfoldable pub with_finalized : Checkpoint → BeaconState → BeaconState
with_finalized checkpoint state = record state { finalized_checkpoint = checkpoint }

module _ (env : Env) where
  -- One `if` of the first part: a target balance of two thirds justifies an epoch.
  unfoldable pub justify_epoch :
      (Checkpoint → BeaconState → BeaconState) → Gwei → Gwei → Epoch → Action (Unit {0})
  justify_epoch justify target_balance total_active_balance epoch =
      if leb (wrapping_mul total_active_balance 2) (wrapping_mul target_balance 3)
      then (do
        root ← read (get_block_root env epoch)
        modify (justify (record { epoch = epoch; root = root })))
      else pure tt

  unfoldable pub weigh_justification_and_finalization :
      (total_active_balance previous_epoch_target_balance current_epoch_target_balance : Gwei)
      → Action (Unit {0})
  weigh_justification_and_finalization total previous_target current_target = do
    previous_epoch ← read (get_previous_epoch env)
    current_epoch ← read (get_current_epoch env)
    old_previous ← gets (λ state. state.previous_justified_checkpoint)
    old_current ← gets (λ state. state.current_justified_checkpoint)
    modify begin_justification
    justify_epoch justify_previous previous_target total previous_epoch
    justify_epoch justify_current current_target total current_epoch
    bits ← gets (λ state. state.justification_bits)
    finalized ← gets (λ state. state.finalized_checkpoint)
    modify (with_finalized (finalize bits current_epoch old_previous old_current finalized))

  unfoldable pub process_justification_and_finalization : Action (Unit {0})
  process_justification_and_finalization = do
    epoch ← read (get_current_epoch env)
    if leb epoch (genesis_epoch + 1) then pure tt else do
      previous_epoch ← read (get_previous_epoch env)
      previous_attestations ← read (get_matching_target_attestations env previous_epoch)
      current_epoch ← read (get_current_epoch env)
      current_attestations ← read (get_matching_target_attestations env current_epoch)
      total_active_balance ← read (get_total_active_balance env)
      previous_target_balance ← read (get_attesting_balance env previous_attestations)
      current_target_balance ← read (get_attesting_balance env current_attestations)
      weigh_justification_and_finalization total_active_balance previous_target_balance
          current_target_balance
