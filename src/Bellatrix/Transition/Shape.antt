-- ===== src/Bellatrix/Transition/Shape.antt =====
-- The whole transition of bellatrix keeps the lists of the state in step, and ends at the block's
-- slot.
use ethereum_consensus.Prelude.{
  ◌-◌, ◌≡◌, ◌<◌, refl, ap, inl, inr, arith, ltb, leb, u64_mod, wrapping_add, Bool-cases,
}
use ethereum_consensus.Types.{Slot, Validation, enabled, disabled}
use ethereum_consensus.Types.Bellatrix.{BeaconState, SignedBeaconBlock}
use ethereum_consensus.Outcome.{Outcome, ok}
use ethereum_consensus.Action.{guard_not->>-eq-ok, gets->>=-eq-ok, >>=-eq-ok, ◌>>=◌}
use ethereum_consensus.Action.Keeps.{Keeps, Ensures, Ensures-bind, keeps_rules}
use ethereum_consensus.Env.{Env}
use ethereum_consensus.Shape.{Shape}
use ethereum_consensus.Altair.Shared.{shared}
use ethereum_consensus.Altair.Transition.Loop.{IsSlotLoop, slot_loop-lands}
use ethereum_consensus.Altair.Transition.Shape.{
  write_state_root-IsConsistent, write_block_root-IsConsistent, fill_state_root-IsConsistent,
  next_slot-IsConsistent,
}
use ethereum_consensus.Bellatrix.InStep.{IsInStep, on_common-IsInStep, on_common-Ensures}
use ethereum_consensus.Bellatrix.Payload.{ExecutionEngine}
use ethereum_consensus.Bellatrix.EpochProcessing.Shape.{process_epoch-IsInStep}
use ethereum_consensus.Bellatrix.BlockProcessing.Shape.{process_block-IsInStep}
use ethereum_consensus.Bellatrix.Transition.{
  process_slot, advance_slot, slots_loop, process_slots, state_transition_block_in_slot,
  state_transition,
}

module _ (env : Env) where
  process_slot-IsInStep : {k : Shape} → Keeps (IsInStep k) (process_slot env)
  unfolding process_slot
  process_slot-IsInStep =
      search
        (
          keeps_rules, on_common-IsInStep, write_state_root-IsConsistent,
          write_block_root-IsConsistent, fill_state_root-IsConsistent,
        )
        depth 12

  advance_slot-IsInStep :
      {k : Shape}
      → Ensures
          (IsInStep k)
          (IsInStep (record k { slot = wrapping_add k.slot 1 }))
          (advance_slot env)
  unfolding advance_slot
  advance_slot-IsInStep =
      search
        (
          keeps_rules, Ensures-bind, process_slot-IsInStep, process_epoch-IsInStep,
          on_common-Ensures, next_slot-IsConsistent,
        )
        depth 10

  slots_loop-IsSlotLoop :
      (target : Slot)
      → IsSlotLoop
          (λ state. state.common.slot)
          (advance_slot env)
          (λ fuel. slots_loop env fuel target)
          target
  unfolding slots_loop ◌>>=◌
  slots_loop-IsSlotLoop target = record {
    on_zero = λ s. elim (Bool-cases (ltb s.common.slot target)) [
      | inl goes ↦ rw goes refl
      | inr stops ↦ rw stops refl
    ];
    on_suc = λ fuel s. elim (Bool-cases (ltb s.common.slot target)) [
      | inl goes ↦ rw goes refl
      | inr stops ↦ rw stops refl
    ];
  }

  -- The slot of the shape is the one of the state.
  slot_of-IsInStep :
      (k : Shape) (n : Slot) (s : BeaconState)
      → IsInStep (record k { slot = n }) s
      → s.common.slot ≡ n
  unfolding shared
  slot_of-IsInStep k n s valid = valid.shared_is.slot_is

  process_slots-IsInStep :
      (target : Slot) (k : Shape) (s : BeaconState) {s' : BeaconState}
      → IsInStep k s
      → target < u64_mod
      → process_slots env target s ≡ (ok tt, s')
      → IsInStep (record k { slot = target }) s'
  unfolding process_slots shared
  process_slots-IsInStep target k s valid small h =
      let later = gets->>=-eq-ok (λ state. state.common.slot) _ s h in
      let (fine, run) = guard_not->>-eq-ok (leb target s.common.slot) _ _ s later in
      slot_loop-lands (slots_loop-IsSlotLoop target) (slot_of-IsInStep k)
        (λ n. advance_slot-IsInStep) small (target - s.common.slot) k.slot s _ valid
        (ground (arith, valid.shared_is.slot_is)) run

  block_in_slot-IsInStep :
      {k : Shape} (signed_block : SignedBeaconBlock) (engine : ExecutionEngine)
      (validation : Validation)
      → Keeps (IsInStep k) (state_transition_block_in_slot env signed_block engine validation)
  unfolding state_transition_block_in_slot
  block_in_slot-IsInStep signed_block engine disabled = process_block-IsInStep env _ engine
  block_in_slot-IsInStep signed_block engine enabled =
      search (keeps_rules, process_block-IsInStep) depth 9

  -- If the lists of a bellatrix state are in step before a successful transition to a block, whose
  -- slot is a 64-bit word, then, whatever the execution engine answers, after it every validator
  -- still has a balance, an entry in both lists of participation flags and an inactivity score, the
  -- vectors have their lengths, and the state is at the slot of the block.
  pub state_transition-IsInStep :
      (signed_block : SignedBeaconBlock) (engine : ExecutionEngine) (validation : Validation)
      (k : Shape) (s s' : BeaconState)
      → IsInStep k s
      → signed_block.message.slot < u64_mod
      → state_transition env signed_block engine validation s ≡ (ok tt, s')
      → IsInStep (record k { slot = signed_block.message.slot }) s'
  unfolding state_transition
  state_transition-IsInStep signed_block engine validation k s s' valid small h =
      let (_, s₁, slots, block) =
        >>=-eq-ok (process_slots env signed_block.message.slot)
          (λ _. state_transition_block_in_slot env signed_block engine validation) s h in
      let ready = process_slots-IsInStep signed_block.message.slot k s valid small slots in
      rw (ap (λ (p : Outcome (Unit {0}) × BeaconState). p.1) block) at
        ((block_in_slot-IsInStep signed_block engine validation).at s₁ ready)
