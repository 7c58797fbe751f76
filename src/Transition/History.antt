-- ===== src/Transition/History.antt =====
-- What a turn of `process_slots` does to the slot and the block roots.
pub mod Lookup
use ethereum_consensus.Prelude.{
  ℕ, ◌+◌, ◌*◌, ◌/◌, ◌%◌, ◌≤◌, ◌<◌, ◌≡◌, ◌≢◌, refl, ap, sym, ◌∙◌, inl, inr, Bool, List, set, some,
  ◌==◌, if◌then◌else◌, length, get_elem?, get_elem?-set_self, get_elem?-set_ne, get_elem?_bound,
  Option-cases, Bool-cases, arith, leb, leb→le, u64_mod, lt→leb, le→ltb, wrapping_add,
  wrapping_add-eq,
}
use mathlib.Core.Path.{subst}
use native.Mathlib.Nat.{mul-le-mul_left, div-add-mod}
use ethereum_consensus.Prelude.Bytes.{bytes_eq}
use ethereum_consensus.Types.{Root, Slot, BeaconBlockHeader, BeaconState, default_root}
use ethereum_consensus.Outcome.{Outcome, ok, rem, rem-eq, ok-injective}
use ethereum_consensus.Action.{
  fault≢ok, err≢ok, >>=-eq-ok, read->>=-eq-ok, modify->>=-eq-ok, modify-eq-ok, pure, ◌>>=◌,
}
use ethereum_consensus.Action.Keeps.{Keeps, keeps_rules}
use ethereum_consensus.Env.{Env, state_object, header_object}
use ethereum_consensus.EpochProcessing.Process.{process_epoch}
use ethereum_consensus.History.{HasHistory}
use ethereum_consensus.History.Epochs.{process_epoch-HasHistory}
use ethereum_consensus.BlockProcessing.Header.{with_header}
use ethereum_consensus.Helpers.Accessors.{get_block_root_at_slot}
use ethereum_consensus.Transition.{
  write_state_root, write_block_root, fill_state_root, with_slot, process_slot, advance_slot,
  process_slots,
}
use ethereum_consensus.Transition.Slots.{
  SlotsRun, done, round, fails, faults, process_slots-SlotsRun, process_slots-HasShape,
}

write_state_root-some :
    (i : ℕ) (root : Root) (s : BeaconState) {s' : BeaconState}
    → write_state_root i root s ≡ (ok tt, s')
    → s' ≡ record s { state_roots = set s.state_roots i root }
unfolding write_state_root ◌>>=◌
write_state_root-some i root s e = elim (Option-cases (get_elem? s.state_roots i)) [
  | inl missing ↦ absurd (fault≢ok (ap (λ p. p.0) (rw missing at e)))
  | inr (old, found) ↦ sym (ap (λ (p : Outcome (Unit {0}) × BeaconState). p.1) (rw found at e))
]

write_block_root-some :
    (i : ℕ) (root : Root) (s : BeaconState) {s' : BeaconState}
    → write_block_root i root s ≡ (ok tt, s')
    → (i < length s.block_roots) × HasHistory s.slot (set s.block_roots i root) s'
unfolding write_block_root ◌>>=◌
write_block_root-some i root s e = elim (Option-cases (get_elem? s.block_roots i)) [
  | inl missing ↦ absurd (fault≢ok (ap (λ p. p.0) (rw missing at e)))
  | inr (old, found) ↦ (
    get_elem?_bound s.block_roots i old found,
    rw (← ap (λ (p : Outcome (Unit {0}) × BeaconState). p.1) (rw found at e))
        (record { slot_is = refl; roots_are = refl }),
  )
]

-- The state root is filled in the same way whatever the state roots are, and in the header only.
fill_state_root-only :
    (root : Root) (s s₁ : BeaconState) (roots : List Root)
    → s₁ ≡ record s { state_roots = roots }
    → ((fill_state_root root s₁).latest_block_header ≡ (fill_state_root root s).latest_block_header)
      × ((fill_state_root root s₁).slot ≡ s.slot)
      × ((fill_state_root root s₁).block_roots ≡ s.block_roots)
unfolding fill_state_root with_header
fill_state_root-only root s s₁ roots same =
    elim (Bool-cases (bytes_eq s.latest_block_header.state_root default_root)) [
      | inl vacant ↦ rw (same, vacant) (refl, refl, refl)
      | inr filled ↦ rw (same, filled) (refl, refl, refl)
    ]

-- The slot and the block roots after the rest of a turn, which moves on by one slot.
HasHistory-with_slot :
    (slot : Slot) (roots : List Root) (s : BeaconState)
    → HasHistory slot roots s
    → HasHistory (wrapping_add slot 1) roots (with_slot (wrapping_add s.slot 1) s)
unfolding with_slot
HasHistory-with_slot slot roots s h = record {
  slot_is = ap (λ n. wrapping_add n 1) h.slot_is;
  roots_are = h.roots_are;
}

module _ (env : Env) where
  -- What `process_slot` writes at its slot: the root of the latest header, with the state root
  -- filled in.
  pub process_slot-written :
      (s : BeaconState) {s' : BeaconState}
      → process_slot env s ≡ (ok tt, s')
      → (state_root : Root) × (root : Root) × (i : ℕ) × (env.externals.hash_tree_root
            (state_object s)
          ≡ ok state_root)
        × (env.externals.hash_tree_root
              (header_object (fill_state_root state_root s).latest_block_header)
            ≡ ok root)
        × (rem s.slot env.context.slots_per_historical_root ≡ ok i)
        × (i < length s.block_roots)
        × HasHistory s.slot (set s.block_roots i root) s'
  unfolding process_slot
  process_slot-written s {s'} e =
      let (state_root, state_root_is, e₁) = read->>=-eq-ok _ _ s e in
      let (i₀, _, e₂) = read->>=-eq-ok _ _ s e₁ in
      let (_, s₃, written, e₃) = >>=-eq-ok _ _ s e₂ in
      let same = write_state_root-some i₀ state_root s written in
      let (header_is, slot_is, roots_are) = fill_state_root-only state_root s s₃ _ same in
      let e₄ = modify->>=-eq-ok (fill_state_root state_root) _ s₃ e₃ in
      let filled = fill_state_root state_root s₃ in
      let (root, root_is, e₅) = read->>=-eq-ok _ _ filled e₄ in
      let (i, i_is, e₆) = read->>=-eq-ok _ _ filled e₅ in
      let (bound, history) = write_block_root-some i root filled e₆ in
      let root_of = λ (h : BeaconBlockHeader). env.externals.hash_tree_root (header_object h) in
      (
        state_root,
        root,
        i,
        state_root_is,
        ap root_of (sym header_is) ∙ root_is,
        ap (λ n. rem n env.context.slots_per_historical_root) (sym slot_is) ∙ i_is,
        subst (λ (roots : List Root). i < length roots) roots_are bound,
        record {
          slot_is = history.slot_is ∙ slot_is;
          roots_are = history.roots_are ∙ ap (λ roots. set roots i root) roots_are;
        },
      )

  epoch_or_not-HasHistory :
      {slot : Slot} {roots : List Root} (boundary : Bool)
      → Keeps (HasHistory slot roots) (if boundary then process_epoch env else pure tt)
  epoch_or_not-HasHistory boundary = search (keeps_rules, process_epoch-HasHistory)

  -- After `process_slot`, the rest of a turn of the loop leaves the block roots as they are.
  pub advance_slot-history :
      (s : BeaconState) {s' : BeaconState}
      → advance_slot env s ≡ (ok tt, s')
      → (s₁ : BeaconState) × (process_slot env s ≡ (ok tt, s₁))
        × ((slot : Slot) (roots : List Root)
            → HasHistory slot roots s₁
            → HasHistory (wrapping_add slot 1) roots s')
  unfolding advance_slot
  advance_slot-history s {s'} e =
      let (_, s₁, first, e₁) = >>=-eq-ok (process_slot env) _ s e in
      let (phase, _, e₂) = read->>=-eq-ok _ _ s₁ e₁ in
      let (_, s₂, epoch, e₃) =
        >>=-eq-ok (if phase == 0 then process_epoch env else pure tt) _ s₁ e₂ in
      (
        s₁,
        first,
        λ slot roots history.
            let kept = (epoch_or_not-HasHistory (phase == 0)).at s₁ history in
            let left : HasHistory slot roots s₂ =
              subst (HasHistory slot roots)
                (ap (λ (p : Outcome (Unit {0}) × BeaconState). p.1) epoch) kept in
            subst (HasHistory (wrapping_add slot 1) roots) (modify-eq-ok _ e₃)
              (HasHistory-with_slot slot roots s₂ left),
      )
