-- ===== src/Tests/Slots.antt =====
-- The theorems about slots and the whole transition at concrete inputs.
use ethereum_consensus.Prelude.{◌≡◌, ◌<◌, refl, arith, replicate}
use ethereum_consensus.Types.{Root, BeaconState, enabled}
use ethereum_consensus.Outcome.{ok}
use ethereum_consensus.Env.{header_object, state_object}
use ethereum_consensus.Shape.{HasShape, shape_of}
use ethereum_consensus.Helpers.Accessors.{get_block_root_at_slot}
use ethereum_consensus.Helpers.Domains.{verify_block_signature}
use ethereum_consensus.BlockProcessing.Process.{process_block}
use ethereum_consensus.BlockProcessing.Process.Shape.{process_block_keeps_shape}
use ethereum_consensus.EpochProcessing.Process.{process_epoch}
use ethereum_consensus.EpochProcessing.Process.Shape.{process_epoch_keeps_shape}
use ethereum_consensus.Transition.{process_slots, state_transition, fill_state_root}
use ethereum_consensus.Transition.Slots.{SlotsRun, process_slots-SlotsRun, process_slots-HasShape}
use ethereum_consensus.Transition.History.Lookup.{get_block_root-process_slots}
use ethereum_consensus.Transition.Accepted.{state_transition-accepted}
use ethereum_consensus.Tests.Run.{run}
use ethereum_consensus.Tests.Samples.{env, state_at, signed_block, block, externals}

-- Over the end of an epoch, to a state that the process leaves.
abbrev after_slots : BeaconState
after_slots = (process_slots env 5 (state_at 2)).1

abbrev after_block : BeaconState
after_block = (state_transition env (signed_block 2 0) enabled (state_at 1)).1

process_slots_returns_ok : (process_slots env 5 (state_at 2)).0 ≡ ok tt
unfolding run
process_slots_returns_ok = refl

process_slots_returns : process_slots env 5 (state_at 2) ≡ (ok tt, after_slots)
process_slots_returns = λ i. (process_slots_returns_ok i, after_slots)

state_transition_returns_ok :
    (state_transition env (signed_block 2 0) enabled (state_at 1)).0 ≡ ok tt
unfolding run
state_transition_returns_ok = refl

state_transition_returns :
    state_transition env (signed_block 2 0) enabled (state_at 1) ≡ (ok tt, after_block)
state_transition_returns = λ i. (state_transition_returns_ok i, after_block)

process_slots-SlotsRun_example :
    SlotsRun env 5 (state_at 2) (process_slots env 5 (state_at 2)).0 after_slots
process_slots-SlotsRun_example =
    process_slots-SlotsRun env 5 (state_at 2) refl (omega arith) (omega arith)

process_slots-HasShape_example :
    (2 < 5) × HasShape (record (shape_of (state_at 2)) { slot = 5 }) after_slots
process_slots-HasShape_example =
    process_slots-HasShape env 5 (state_at 2) after_slots refl (omega arith) process_slots_returns

get_block_root-process_slots_example :
    (state_root : Root) × (externals.hash_tree_root (state_object (state_at 2)) ≡ ok state_root)
    × (get_block_root_at_slot env 2 after_slots
        ≡ externals.hash_tree_root
            (header_object (fill_state_root state_root (state_at 2)).latest_block_header))
get_block_root-process_slots_example =
    get_block_root-process_slots env refl (omega arith) 5 (state_at 2) after_slots refl
      (omega arith) (omega arith) process_slots_returns

state_transition-accepted_example :
    (1 < 2)
    × (s₁ : BeaconState) × (process_slots env 2 (state_at 1) ≡ (ok tt, s₁))
    × (verify_block_signature env (signed_block 2 0) s₁ ≡ ok tt)
    × (process_block env (block 2 0) s₁ ≡ (ok tt, after_block))
    × HasShape (record (shape_of (state_at 1)) { slot = 2 }) after_block
    × (externals.hash_tree_root (state_object after_block) ≡ ok (replicate 32 1))
state_transition-accepted_example =
    state_transition-accepted env (signed_block 2 0) (state_at 1) after_block refl (omega arith)
      state_transition_returns

process_epoch_keeps_shape_example :
    HasShape (shape_of (state_at 7)) (process_epoch env (state_at 7)).1
process_epoch_keeps_shape_example = process_epoch_keeps_shape env (state_at 7) refl

process_block_keeps_shape_example :
    HasShape (shape_of (state_at 2)) (process_block env (block 2 0) (state_at 2)).1
process_block_keeps_shape_example = process_block_keeps_shape env (block 2 0) (state_at 2) refl
