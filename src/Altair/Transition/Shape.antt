-- ===== src/Altair/Transition/Shape.antt =====
-- The whole transition of altair keeps the lists of the state in step, and ends at the block's slot.
use ethereum_consensus.Prelude.{
  ℕ, ◌-◌, ◌≡◌, refl, ◌<◌, ap, inl, inr, arith, ltb, leb, u64_mod, wrapping_add, Bool-cases,
}
use ethereum_consensus.Types.{Root, Slot, Validation, enabled, disabled}
use ethereum_consensus.Types.Altair.{BeaconState, SignedBeaconBlock}
use ethereum_consensus.Outcome.{Outcome, ok}
use ethereum_consensus.Action.{modify, guard_not->>-eq-ok, gets->>=-eq-ok, >>=-eq-ok, ◌>>=◌}
use ethereum_consensus.Action.Keeps.{Keeps, Keeps-modify, Ensures, Ensures-bind, keeps_rules}
use ethereum_consensus.Env.{Env}
use ethereum_consensus.Shape.{Shape}
use ethereum_consensus.RegistrySize.Blocks.{
  write_state_root-HasSize, write_block_root-HasSize, fill_state_root-HasSize,
}
use ethereum_consensus.Transition as Phase0
use ethereum_consensus.Transition.Slots.{
  write_state_root-HasShape, write_block_root-HasShape, fill_state_root-HasShape,
}
use ethereum_consensus.Altair.Shared.{shared, with_shared, on_shared}
use ethereum_consensus.Altair.Consistent.{IsConsistent, on_shared-IsConsistent}
use ethereum_consensus.Altair.EpochProcessing.Shape.{process_epoch-IsConsistent}
use ethereum_consensus.Altair.BlockProcessing.Shape.{process_block-IsConsistent}
use ethereum_consensus.Altair.Transition.Loop.{IsSlotLoop, slot_loop-lands}
use ethereum_consensus.Altair.Transition.{
  process_slot, advance_slot, slots_loop, process_slots, state_transition_block_in_slot,
  state_transition,
}

module _ {k : Shape} where
  pub write_state_root-IsConsistent :
      (i : ℕ) (root : Root) → Keeps (IsConsistent k) (on_shared (Phase0.write_state_root i root))
  write_state_root-IsConsistent i root =
      on_shared-IsConsistent _ (write_state_root-HasShape i root)
        (λ n. write_state_root-HasSize i root)

  pub write_block_root-IsConsistent :
      (i : ℕ) (root : Root) → Keeps (IsConsistent k) (on_shared (Phase0.write_block_root i root))
  write_block_root-IsConsistent i root =
      on_shared-IsConsistent _ (write_block_root-HasShape i root)
        (λ n. write_block_root-HasSize i root)

  pub fill_state_root-IsConsistent :
      (root : Root) → Keeps (IsConsistent k) (on_shared (modify (Phase0.fill_state_root root)))
  fill_state_root-IsConsistent root =
      on_shared-IsConsistent _ (Keeps-modify _ (fill_state_root-HasShape root))
        (λ n. Keeps-modify _ (fill_state_root-HasSize root))

  -- The step to the next slot.
  pub next_slot-IsConsistent :
      Ensures
        (IsConsistent k)
        (IsConsistent (record k { slot = wrapping_add k.slot 1 }))
        (on_shared (modify (λ s. Phase0.with_slot (wrapping_add s.slot 1) s)))
  unfolding on_shared modify shared with_shared Phase0.with_slot
  next_slot-IsConsistent = record {
    at = λ s h a e. record {
      shared_is = record {
        slot_is = ap (λ n. wrapping_add n 1) h.shared_is.slot_is;
        block_roots_is = h.shared_is.block_roots_is;
        state_roots_is = h.shared_is.state_roots_is;
        randao_mixes_is = h.shared_is.randao_mixes_is;
        slashings_is = h.shared_is.slashings_is;
        balances_is = h.shared_is.balances_is;
      };
      previous_is = h.previous_is;
      current_is = h.current_is;
      scores_is = h.scores_is;
    };
  }

module _ (env : Env) where
  process_slot-IsConsistent : {k : Shape} → Keeps (IsConsistent k) (process_slot env)
  unfolding process_slot
  process_slot-IsConsistent =
      search
        (
          keeps_rules, write_state_root-IsConsistent, write_block_root-IsConsistent,
          fill_state_root-IsConsistent,
        )
        depth 12

  advance_slot-IsConsistent :
      {k : Shape}
      → Ensures
          (IsConsistent k)
          (IsConsistent (record k { slot = wrapping_add k.slot 1 }))
          (advance_slot env)
  unfolding advance_slot
  advance_slot-IsConsistent =
      search
        (
          keeps_rules, Ensures-bind, process_slot-IsConsistent, process_epoch-IsConsistent,
          next_slot-IsConsistent,
        )
        depth 9

  slots_loop-IsSlotLoop :
      (target : Slot)
      → IsSlotLoop
          (λ state. state.slot)
          (advance_slot env)
          (λ fuel. slots_loop env fuel target)
          target
  unfolding slots_loop ◌>>=◌
  slots_loop-IsSlotLoop target = record {
    on_zero = λ s. elim (Bool-cases (ltb s.slot target)) [
      | inl goes ↦ rw goes refl
      | inr stops ↦ rw stops refl
    ];
    on_suc = λ fuel s. elim (Bool-cases (ltb s.slot target)) [
      | inl goes ↦ rw goes refl
      | inr stops ↦ rw stops refl
    ];
  }

  -- The slot of the shape is the one of the state.
  slot_of-IsConsistent :
      (k : Shape) (n : Slot) (s : BeaconState) → IsConsistent (record k { slot = n }) s → s.slot ≡ n
  unfolding shared
  slot_of-IsConsistent k n s valid = valid.shared_is.slot_is

  process_slots-IsConsistent :
      (target : Slot) (k : Shape) (s : BeaconState) {s' : BeaconState}
      → IsConsistent k s
      → target < u64_mod
      → process_slots env target s ≡ (ok tt, s')
      → IsConsistent (record k { slot = target }) s'
  unfolding process_slots shared
  process_slots-IsConsistent target k s valid small h =
      let later = gets->>=-eq-ok (λ state. state.slot) _ s h in
      let (fine, run) = guard_not->>-eq-ok (leb target s.slot) _ _ s later in
      slot_loop-lands (slots_loop-IsSlotLoop target) (slot_of-IsConsistent k)
        (λ n. advance_slot-IsConsistent) small (target - s.slot) k.slot s _ valid
        (ground (arith, valid.shared_is.slot_is)) run

  block_in_slot-IsConsistent :
      {k : Shape} (signed_block : SignedBeaconBlock) (validation : Validation)
      → Keeps (IsConsistent k) (state_transition_block_in_slot env signed_block validation)
  unfolding state_transition_block_in_slot
  block_in_slot-IsConsistent signed_block disabled = process_block-IsConsistent env _
  block_in_slot-IsConsistent signed_block enabled =
      search (keeps_rules, process_block-IsConsistent) depth 9

  -- If the lists of an altair state are in step before a successful transition to a block, whose
  -- slot is a 64-bit word, then after it every validator still has a balance, an entry in both
  -- lists of participation flags and an inactivity score, the vectors have their lengths, and the
  -- state is at the slot of the block.
  pub state_transition-IsConsistent :
      (signed_block : SignedBeaconBlock) (validation : Validation) (k : Shape) (s s' : BeaconState)
      → IsConsistent k s
      → signed_block.message.slot < u64_mod
      → state_transition env signed_block validation s ≡ (ok tt, s')
      → IsConsistent (record k { slot = signed_block.message.slot }) s'
  unfolding state_transition
  state_transition-IsConsistent signed_block validation k s s' valid small h =
      let (_, s₁, slots, block) =
        >>=-eq-ok (process_slots env signed_block.message.slot)
          (λ _. state_transition_block_in_slot env signed_block validation) s h in
      let ready = process_slots-IsConsistent signed_block.message.slot k s valid small slots in
      rw (ap (λ (p : Outcome (Unit {0}) × BeaconState). p.1) block) at
        ((block_in_slot-IsConsistent signed_block validation).at s₁ ready)
