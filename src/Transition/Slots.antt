-- ===== src/Transition/Slots.antt =====
-- `process_slots` as the `while` loop of the source, and the slot at which it ends.
use ethereum_consensus.Prelude.{
  ℕ, zero, suc, ◌+◌, ◌-◌, ◌≤◌, ◌<◌, ◌≡◌, refl, ap, inl, inr, set, length, length-set, arith, ltb,
  leb, ltb→lt, le→ltb, lt→leb, u64_mod, wrapping_add, Bool-cases,
}
use ethereum_consensus.Types.{Root, Slot, BeaconState}
use ethereum_consensus.Errors.{Error}
use ethereum_consensus.Outcome.{Outcome, Fault, ok, err, fault}
use ethereum_consensus.Action.{Action, continue, err≢ok, fault≢ok, ◌>>=◌}
use ethereum_consensus.Action.Keeps.{
  Keeps, Keeps-modify, Ensures, Ensures-bind, Ensures-modify, keeps_rules,
}
use ethereum_consensus.Env.{Env}
use ethereum_consensus.Shape.{Shape, HasShape, shape_of, HasShape-shape_of}
use ethereum_consensus.BlockProcessing.Header.Shape.{with_header-HasShape}
use ethereum_consensus.EpochProcessing.Process.Shape.{process_epoch-HasShape}
use ethereum_consensus.Transition.{
  write_state_root, write_block_root, fill_state_root, with_slot, process_slot, advance_slot,
  slots_loop, process_slots,
}

module _ {k : Shape} where
  set_state_root-HasShape :
      (i : ℕ) (root : Root) (s : BeaconState)
      → HasShape k s
      → HasShape k (record s { state_roots = set s.state_roots i root })
  set_state_root-HasShape i root s h = ground (arith, length-set s.state_roots i root)

  set_block_root-HasShape :
      (i : ℕ) (root : Root) (s : BeaconState)
      → HasShape k s
      → HasShape k (record s { block_roots = set s.block_roots i root })
  set_block_root-HasShape i root s h = ground (arith, length-set s.block_roots i root)

  pub write_state_root-HasShape :
      (i : ℕ) (root : Root) → Keeps (HasShape k) (write_state_root i root)
  unfolding write_state_root
  write_state_root-HasShape i root = search (keeps_rules, Keeps-modify, set_state_root-HasShape)

  pub write_block_root-HasShape :
      (i : ℕ) (root : Root) → Keeps (HasShape k) (write_block_root i root)
  unfolding write_block_root
  write_block_root-HasShape i root = search (keeps_rules, Keeps-modify, set_block_root-HasShape)

  pub fill_state_root-HasShape :
      (root : Root) (s : BeaconState) → HasShape k s → HasShape k (fill_state_root root s)
  unfolding fill_state_root
  fill_state_root-HasShape root s h =
      ground (arith, with_header-HasShape (record s.latest_block_header { state_root = root }) s h)

module _ (env : Env) where
  process_slot-HasShape : {k : Shape} → Keeps (HasShape k) (process_slot env)
  unfolding process_slot
  process_slot-HasShape =
      search
        (
          keeps_rules, Keeps-modify, write_state_root-HasShape, write_block_root-HasShape,
          fill_state_root-HasShape,
        )
        depth 12

  with_slot-HasShape :
      {k : Shape} (s : BeaconState)
      → HasShape k s
      → HasShape (record k { slot = wrapping_add k.slot 1 }) (with_slot (wrapping_add s.slot 1) s)
  unfolding with_slot
  with_slot-HasShape s h = ground arith

  -- A round that succeeds moves on by one slot, and changes nothing else of the shape.
  advance_slot-HasShape :
      {k : Shape}
      → Ensures
          (HasShape k)
          (HasShape (record k { slot = wrapping_add k.slot 1 }))
          (advance_slot env)
  unfolding advance_slot
  advance_slot-HasShape =
      search
        (
          keeps_rules, Ensures-bind, Ensures-modify, process_slot-HasShape, process_epoch-HasShape,
          with_slot-HasShape,
        )
        depth 9

  -- The runs of `while state.slot < slot { … }` to the slot `target`, with what they return.
  pub data SlotsRun (target : Slot) : BeaconState → Outcome (Unit {0}) → BeaconState → Type 0 where
    done : {s : BeaconState} → target ≤ s.slot → SlotsRun target s (ok tt) s
    round :
        {s s₁ s' : BeaconState} {r : Outcome (Unit {0})}
        → s.slot < target
        → advance_slot env s ≡ (ok tt, s₁)
        → SlotsRun target s₁ r s'
        → SlotsRun target s r s'
    fails :
        {s s' : BeaconState} {e : Error}
        → s.slot < target
        → advance_slot env s ≡ (err e, s')
        → SlotsRun target s (err e) s'
    faults :
        {s s' : BeaconState} {x : Fault}
        → s.slot < target
        → advance_slot env s ≡ (fault x, s')
        → SlotsRun target s (fault x) s'

  advance_slot-slot :
      (s : BeaconState) (s₁ : BeaconState)
      → length s.balances ≡ length s.validators
      → s.slot + 1 < u64_mod
      → advance_slot env s ≡ (ok tt, s₁)
      → HasShape (record (shape_of s) { slot = s.slot + 1 }) s₁
  advance_slot-slot s s₁ valid small e =
      let h = advance_slot-HasShape.at s (HasShape-shape_of s valid) tt (ap (λ p. p.0) e) in
      let h' : HasShape (record (shape_of s) { slot = wrapping_add s.slot 1 }) s₁ =
        rw (ap (λ (p : Outcome (Unit {0}) × BeaconState). p.1) e) at h in
      ground arith

  -- A round, by what `advance_slot` did.
  SlotsRun-round :
      {target : Slot} {s : BeaconState} (rest : Action (Unit {0})) (r : Outcome (Unit {0}))
      (s₁ : BeaconState)
      → s.slot < target
      → advance_slot env s ≡ (r, s₁)
      → (r ≡ ok tt → SlotsRun target s₁ (rest s₁).0 (rest s₁).1)
      → SlotsRun target s (continue r (λ _. rest) s₁).0 (continue r (λ _. rest) s₁).1
  SlotsRun-round rest (ok u) s₁ h e later = round h e (later refl)
  SlotsRun-round rest (err x) s₁ h e later = fails h e
  SlotsRun-round rest (fault x) s₁ h e later = faults h e

  slots_loop-SlotsRun :
      (fuel : ℕ) (target : Slot) (s : BeaconState)
      → length s.balances ≡ length s.validators
      → target < u64_mod
      → target ≤ s.slot + fuel
      → SlotsRun target s (slots_loop env fuel target s).0 (slots_loop env fuel target s).1
  unfolding slots_loop ◌>>=◌
  slots_loop-SlotsRun zero target s valid small enough =
      rw (le→ltb s.slot target (omega arith)) (done (omega arith))
  slots_loop-SlotsRun (suc fuel) target s valid small enough =
      elim (Bool-cases (ltb s.slot target)) [
        | inr stops ↦ rw stops (done (ground arith))
        | inl goes ↦ rw goes (
            SlotsRun-round (slots_loop env fuel target) (advance_slot env s).0
              (advance_slot env s).1 (ltb→lt _ _ goes) refl
              λ ok_is.
                let h =
                  advance_slot-slot s (advance_slot env s).1 valid (omega (arith, ltb→lt _ _ goes))
                    (λ i. (ok_is i, (advance_slot env s).1)) in
                slots_loop-SlotsRun fuel target _ h.balances_is small (omega (arith, h.slot_is)))
      ]

  SlotsRun-HasShape :
      {target : Slot} {s s' : BeaconState} {r : Outcome (Unit {0})}
      → SlotsRun target s r s'
      → r ≡ ok tt
      → length s.balances ≡ length s.validators
      → s.slot ≤ target
      → target < u64_mod
      → HasShape (record (shape_of s) { slot = target }) s'
  SlotsRun-HasShape (done h) e valid le small = ground (arith, HasShape-shape_of _ valid)
  SlotsRun-HasShape (round h step run) e valid le small =
      let next = advance_slot-slot _ _ valid (omega arith) step in
      let last = SlotsRun-HasShape run e next.balances_is (omega (arith, next.slot_is)) small in
      ground arith
  SlotsRun-HasShape (fails h step) e valid le small = absurd (err≢ok e)
  SlotsRun-HasShape (faults h step) e valid le small = absurd (fault≢ok e)

  -- If every validator has a balance, and the target is a later slot and a 64-bit word, then
  -- `process_slots` is a run of the loop `while state.slot < target`, and so the fuel that the
  -- model gives it does not show in what it returns.
  pub process_slots-SlotsRun :
      (target : Slot) (s : BeaconState)
      → length s.balances ≡ length s.validators
      → s.slot < target
      → target < u64_mod
      → SlotsRun target s (process_slots env target s).0 (process_slots env target s).1
  unfolding process_slots ◌>>=◌
  process_slots-SlotsRun target s valid later small =
      rw (lt→leb target s.slot later)
        (slots_loop-SlotsRun (target - s.slot) target s valid small (omega arith))

  process_slots_later :
      (target : Slot) (s : BeaconState) → (process_slots env target s).0 ≡ ok tt → s.slot < target
  unfolding process_slots ◌>>=◌
  process_slots_later target s e = elim (Bool-cases (leb target s.slot)) [
    | inl past ↦ absurd (err≢ok (rw past at e))
    | inr later ↦ ground arith
  ]

  -- If every validator has a balance and `process_slots` returns, the slot that was asked for was
  -- a later one, the state stands at that slot, its vectors have the lengths that they had, and
  -- every validator still has a balance.
  pub process_slots-HasShape :
      (target : Slot) (s s' : BeaconState)
      → length s.balances ≡ length s.validators
      → target < u64_mod
      → process_slots env target s ≡ (ok tt, s')
      → (s.slot < target) × HasShape (record (shape_of s) { slot = target }) s'
  process_slots-HasShape target s s' valid small e =
      let later : s.slot < target = process_slots_later target s (ap (λ p. p.0) e) in
      (
        later,
        rw (ap (λ (p : Outcome (Unit {0}) × BeaconState). p.1) e) at (
            SlotsRun-HasShape (process_slots-SlotsRun target s valid later small) (ap (λ p. p.0) e)
              valid (omega arith) small),
      )
