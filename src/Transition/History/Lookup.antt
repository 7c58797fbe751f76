-- ===== src/Transition/History/Lookup.antt =====
-- What `process_slots` writes into the history at its first slot is what `get_block_root_at_slot`
-- reads from the state in which it ends.
use ethereum_consensus.Prelude.{
  ℕ, ◌+◌, ◌/◌, ◌%◌, ◌≤◌, ◌<◌, ◌≡◌, ◌≢◌, ap, sym, ◌∙◌, inl, inr, some, set, length, get_elem?,
  get_elem?-set_self, get_elem?-set_ne, Bool-cases, arith, leb, leb→le, u64_mod, lt→leb, le→ltb,
  wrapping_add-eq,
}
use mathlib.Core.Path.{subst}
use native.Mathlib.Nat.{mul-le-mul_left, div-add-mod}
use ethereum_consensus.Types.{Root, Slot, BeaconState}
use ethereum_consensus.Outcome.{Outcome, ok, rem, rem-eq, ok-injective}
use ethereum_consensus.Action.{fault≢ok, err≢ok}
use ethereum_consensus.Env.{Env, state_object, header_object}
use ethereum_consensus.Helpers.Accessors.{get_block_root_at_slot}
use ethereum_consensus.Transition.{fill_state_root, advance_slot, process_slots}
use ethereum_consensus.Transition.Slots.{
  SlotsRun, done, round, fails, faults, process_slots-SlotsRun, process_slots-HasShape,
}
use ethereum_consensus.Transition.History.{process_slot-written, advance_slot-history}

-- Two slots less than a history length apart do not share a place.
mod-distinct : (a b len : ℕ) → a < b → b < a + len → b % len ≢ a % len
mod-distinct a b len before near same =
    let at_a = div-add-mod a len in
    let at_b = div-add-mod b len in
    let further : a / len < b / len = elim (Bool-cases (leb (b / len) (a / len))) [
      | inl le ↦
          let below = mul-le-mul_left {m = b / len} {n = a / len} len (leb→le _ _ le) in
          absurd (omega (arith, at_a, at_b, below, same, before))
      | inr gt ↦ ground arith
    ] in
    let above = mul-le-mul_left {m = a / len + 1} {n = b / len} len (omega arith) in
    absurd (omega (arith, at_a, at_b, above, same, near))

-- The state is at a slot, and has a root in a place of its history.
record Recorded (slot : Slot) (place : ℕ) (root : Root) (s : BeaconState) : Type 0 where
  at_slot : s.slot ≡ slot
  in_place : get_elem? s.block_roots place ≡ some root

module _ (env : Env)
    (agree : env.context.slots_per_historical_root ≡ env.generics.slots_per_historical_root)
    (positive : 0 < env.generics.slots_per_historical_root) where
  abbrev len : ℕ
  len = env.generics.slots_per_historical_root

  place-eq : (slot i : ℕ) → rem slot env.context.slots_per_historical_root ≡ ok i → i ≡ slot % len
  place-eq slot i i_is =
      let read_in : rem slot len ≡ ok i = rw (← agree) i_is in
      ok-injective (sym read_in ∙ rem-eq slot len positive)

  -- A turn at a later slot, before the history has gone round, writes to another place.
  advance_slot-Recorded :
      (start : Slot) (root : Root) (s s' : BeaconState)
      → start < s.slot
      → s.slot < start + len
      → s.slot + 1 < u64_mod
      → advance_slot env s ≡ (ok tt, s')
      → get_elem? s.block_roots (start % len) ≡ some root
      → Recorded (s.slot + 1) (start % len) root s'
  advance_slot-Recorded start root s s' later near small e found =
      let (s₁, first, rest) = advance_slot-history env s e in
      let (_, new, i, _, _, i_is, _, written) = process_slot-written env s first in
      let after = rest _ _ written in
      let other : i ≢ start % len =
        λ same. mod-distinct start s.slot len later near (sym (place-eq s.slot i i_is) ∙ same) in
      record {
        at_slot = after.slot_is ∙ wrapping_add-eq s.slot 1 small;
        in_place =
            ap (λ roots. get_elem? roots (start % len)) after.roots_are
            ∙ get_elem?-set_ne s.block_roots i (start % len) new other
            ∙ found;
      }

  SlotsRun-Recorded :
      {target start : Slot} {root : Root} {s s' : BeaconState} {r : Outcome (Unit {0})}
      → SlotsRun env target s r s'
      → r ≡ ok tt
      → start < s.slot
      → s.slot ≤ target
      → target ≤ start + len
      → start + len < u64_mod
      → get_elem? s.block_roots (start % len) ≡ some root
      → Recorded target (start % len) root s'
  SlotsRun-Recorded (done h) e later le near small found = record {
    at_slot = omega (arith, h, le);
    in_place = found;
  }
  SlotsRun-Recorded {target} {start} {root} {s} (round {s₁ = s₁} h step run) e later le near small
        found =
      let next =
        advance_slot-Recorded start root s s₁ later (omega arith) (omega arith) step found in
      SlotsRun-Recorded run e (omega (arith, next.at_slot, later)) (omega (arith, next.at_slot, h))
        near small next.in_place
  SlotsRun-Recorded (fails h step) e later le near small found = absurd (err≢ok e)
  SlotsRun-Recorded (faults h step) e later le near small found = absurd (fault≢ok e)

  -- The whole run: its first turn records the root of the latest header.
  SlotsRun-records :
      {target : Slot} {s s' : BeaconState} {r : Outcome (Unit {0})}
      → SlotsRun env target s r s'
      → r ≡ ok tt
      → s.slot < target
      → target ≤ s.slot + len
      → s.slot + len < u64_mod
      → (state_root : Root) × (root : Root) × (env.externals.hash_tree_root (state_object s)
          ≡ ok state_root)
        × (env.externals.hash_tree_root
              (header_object (fill_state_root state_root s).latest_block_header)
            ≡ ok root)
        × Recorded target (s.slot % len) root s'
  SlotsRun-records (done h) e later near small = absurd (omega (arith, h, later))
  SlotsRun-records {target} {s} (round {s₁ = s₁} h step run) e later near small =
      let (s₀, first, rest) = advance_slot-history env s step in
      let (state_root, root, i, state_root_is, root_is, i_is, bound, written) =
        process_slot-written env s first in
      let after = rest _ _ written in
      let next : s₁.slot ≡ s.slot + 1 =
        after.slot_is ∙ wrapping_add-eq s.slot 1 (omega (arith, later, near, small)) in
      let found : get_elem? s₁.block_roots (s.slot % len) ≡ some root =
        ap (λ roots. get_elem? roots (s.slot % len)) after.roots_are
        ∙ ap (get_elem? (set s.block_roots i root)) (sym (place-eq s.slot i i_is))
        ∙ get_elem?-set_self s.block_roots i root bound in
      (
        state_root,
        root,
        state_root_is,
        root_is,
        SlotsRun-Recorded run e (omega (arith, next)) (omega (arith, next, later)) near small found,
      )
  SlotsRun-records (fails h step) e later near small = absurd (err≢ok e)
  SlotsRun-records (faults h step) e later near small = absurd (fault≢ok e)

  -- If the configuration and the const generic agree on the length of the history, that length is
  -- positive, every validator has a balance, and `process_slots` has taken the state to a slot that
  -- is at most one history length, without wrapping around, after the slot where it began, then
  -- there the root that `get_block_root_at_slot` finds for the slot where it began is the hash tree
  -- root of the header that was the latest then, with its state root filled in.
  pub get_block_root-process_slots :
      (target : Slot) (s s' : BeaconState)
      → length s.balances ≡ length s.validators
      → s.slot + len < u64_mod
      → target ≤ s.slot + len
      → process_slots env target s ≡ (ok tt, s')
      → (state_root : Root) × (env.externals.hash_tree_root (state_object s) ≡ ok state_root)
        × (get_block_root_at_slot env s.slot s'
            ≡ env.externals.hash_tree_root
                (header_object (fill_state_root state_root s).latest_block_header))
  unfolding get_block_root_at_slot
  get_block_root-process_slots target s s' valid small near e =
      let below : target < u64_mod = omega (arith, small, near) in
      let (later, _) = process_slots-HasShape env target s s' valid below e in
      let returned : (process_slots env target s).1 ≡ s' =
        ap (λ (p : Outcome (Unit {0}) × BeaconState). p.1) e in
      let run = process_slots-SlotsRun env target s valid later below in
      let (state_root, root, state_root_is, root_is, recorded) =
        SlotsRun-records run (ap (λ p. p.0) e) later near small in
      let kept = subst (Recorded target (s.slot % len) root) returned recorded in
      (
        state_root,
        state_root_is,
        rw
            (
              kept.at_slot,
              lt→leb target s.slot later,
              wrapping_add-eq s.slot len small,
              le→ltb (s.slot + len) target near,
              rem-eq s.slot len positive,
              kept.in_place,
            )
            (sym root_is),
      )
