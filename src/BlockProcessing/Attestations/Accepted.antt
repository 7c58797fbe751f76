-- ===== src/BlockProcessing/Attestations/Accepted.antt =====
-- What `process_attestation` checks, and what it changes.
use ethereum_consensus.Prelude.{
  ℕ, List, ◌≤◌, ◌<◌, ◌≡◌, ◌≢◌, ap, sym, ◌∙◌, ◌⊎◌, inl, inr, Bool, true, false, not, length, arith,
  ◌==◌, ◌||◌, Bool-cases, if◌then◌else◌, wrapping_add, wrapping_sub,
}
use ethereum_consensus.Prelude.Bytes.{bytes_eq_sound}
use ethereum_consensus.Types.{
  Epoch, Slot, ValidatorIndex, Checkpoint, Attestation, PendingAttestation, BeaconState,
  checkpoint_eq,
}
use ethereum_consensus.Errors.{Error}
use ethereum_consensus.Outcome.{ok, err}
use ethereum_consensus.Action.{
  read->>=-eq-ok, gets->>=-eq-ok, lift->>=-eq-ok, guard_not->>-eq-ok, guard_not-eq-ok, modify-eq-ok,
}
use ethereum_consensus.Action.Atomic.{IsQuiet, IsAtomic, atomic_rules, atomic-err, quiet->>=-eq-ok}
use ethereum_consensus.Env.{Env}
use ethereum_consensus.Helpers.Epochs.{compute_epoch_at_slot, get_current_epoch, get_previous_epoch}
use ethereum_consensus.Helpers.Accessors.{get_committee_count_per_slot}
use ethereum_consensus.Helpers.Committees.{get_beacon_committee, get_beacon_proposer_index}
use ethereum_consensus.BlockProcessing.Attestations.{
  push_current, push_previous, push_if_source, check_timing, check_committee, process_attestation,
}

module _ (env : Env) where
  check_timing-IsQuiet :
      (a : Attestation) (epoch : Epoch) (b : Bool) → IsQuiet (check_timing env a epoch b)
  unfolding check_timing
  check_timing-IsQuiet a epoch b = search atomic_rules depth 14

  check_committee-IsQuiet : (a : Attestation) → IsQuiet (check_committee env a)
  unfolding check_committee
  check_committee-IsQuiet a = search atomic_rules depth 14

  push_if_source-IsAtomic :
      (expected source : Checkpoint) (epoch : Epoch) (push : BeaconState → BeaconState)
      → IsAtomic (push_if_source expected source epoch push)
  unfolding push_if_source
  push_if_source-IsAtomic expected source epoch push = search atomic_rules depth 6

  process_attestation-IsAtomic : (a : Attestation) → IsAtomic (process_attestation env a)
  unfolding process_attestation
  process_attestation-IsAtomic a =
      search (atomic_rules, check_timing-IsQuiet, check_committee-IsQuiet, push_if_source-IsAtomic)
        depth 14

  -- An attestation that is refused with an error leaves the state as it was.
  pub process_attestation-atomic :
      (a : Attestation) (s s' : BeaconState) (e : Error)
      → process_attestation env a s ≡ (err e, s')
      → s' ≡ s
  process_attestation-atomic a s s' e =
      atomic-err (process_attestation env a) (process_attestation-IsAtomic a)

  -- The pending attestation that is kept of an attestation.
  abbrev pub pending_of : Attestation → Slot → ValidatorIndex → PendingAttestation
  pending_of a slot proposer_index = record {
    aggregation_bits = a.aggregation_bits;
    attestation_data = a.attestation_data;
    inclusion_delay = wrapping_sub slot a.attestation_data.slot;
    proposer_index = proposer_index;
  }

  same-checkpoint : (a b : Checkpoint) → not (checkpoint_eq a b) ≡ false → a ≡ b
  unfolding checkpoint_eq
  same-checkpoint a b h =
      let epochs : a.epoch ≡ b.epoch = ground arith in
      let roots : a.root ≡ b.root = bytes_eq_sound a.root b.root (ground arith) in
      λ i. record { epoch = epochs i; root = roots i }

  push_if_source-accepted :
      (expected source : Checkpoint) (epoch : Epoch) (push : BeaconState → BeaconState)
      (s : BeaconState) {s' : BeaconState}
      → push_if_source expected source epoch push s ≡ (ok tt, s')
      → (source ≡ expected) × (s' ≡ push s)
  unfolding push_if_source
  push_if_source-accepted expected source epoch push s e =
      let (matches, e₁) = guard_not->>-eq-ok _ _ _ s e in
      (same-checkpoint source expected matches, sym (modify-eq-ok push e₁))

  check_timing-accepted :
      (a : Attestation) (epoch : Epoch) (valid : Bool) (s : BeaconState)
      → (check_timing env a epoch valid s).0 ≡ ok tt
      → (valid ≡ true)
        × (compute_epoch_at_slot env a.attestation_data.slot ≡ ok a.attestation_data.target.epoch)
        × (wrapping_add a.attestation_data.slot env.context.min_attestation_inclusion_delay
            ≤ s.slot)
        × (s.slot ≤ wrapping_add a.attestation_data.slot env.context.slots_per_epoch)
  unfolding check_timing
  check_timing-accepted a epoch valid s h =
      let e : check_timing env a epoch valid s ≡ (ok tt, (check_timing env a epoch valid s).1) =
        λ i. (h i, (check_timing env a epoch valid s).1) in
      let (is_valid, e₁) = guard_not->>-eq-ok _ _ _ s e in
      let (slot_epoch, slot_epoch_is, e₂) = lift->>=-eq-ok _ _ s e₁ in
      let (target_is, e₃) = guard_not->>-eq-ok _ _ _ s e₂ in
      let e₄ = gets->>=-eq-ok (λ state. state.slot) _ s e₃ in
      let (timely, _) = guard_not-eq-ok _ _ e₄ in
      let target_eq : a.attestation_data.target.epoch ≡ slot_epoch = ground arith in
      (ground arith, slot_epoch_is ∙ ap ok (sym target_eq), ground arith, ground arith)

  check_committee-accepted :
      (a : Attestation) (s : BeaconState)
      → (check_committee env a s).0 ≡ ok tt
      → (count : ℕ) × (committee : List ValidatorIndex) × (get_committee_count_per_slot env
            a.attestation_data.target.epoch s
          ≡ ok count)
        × (a.attestation_data.index < count)
        × (get_beacon_committee env a.attestation_data.slot a.attestation_data.index s
            ≡ ok committee)
        × (length a.aggregation_bits ≡ length committee)
  unfolding check_committee
  check_committee-accepted a s h =
      let e : check_committee env a s ≡ (ok tt, (check_committee env a s).1) =
        λ i. (h i, (check_committee env a s).1) in
      let (count, count_is, e₁) = read->>=-eq-ok _ _ s e in
      let (below, e₂) = guard_not->>-eq-ok _ _ _ s e₁ in
      let (committee, committee_is, e₃) = read->>=-eq-ok _ _ s e₂ in
      let (fits, e₄) = guard_not->>-eq-ok _ _ _ s e₃ in
      (count, committee, count_is, ground arith, committee_is, ground arith)

  -- The last `if`, for a target that is the previous or the current epoch.
  kept-accepted :
      (a : Attestation) (previous current : Epoch) (pending : PendingAttestation) (s : BeaconState)
      {s' : BeaconState}
      → (a.attestation_data.target.epoch == previous || a.attestation_data.target.epoch == current)
        ≡ true
      → (if a.attestation_data.target.epoch == current
            then push_if_source s.current_justified_checkpoint a.attestation_data.source current
                (push_current pending)
            else push_if_source s.previous_justified_checkpoint a.attestation_data.source current
                (push_previous pending))
          s
        ≡ (ok tt, s')
      → ((a.attestation_data.target.epoch ≡ current)
          × (a.attestation_data.source ≡ s.current_justified_checkpoint)
          × (s' ≡ push_current pending s))
        ⊎ ((a.attestation_data.target.epoch ≢ current)
            × (a.attestation_data.target.epoch ≡ previous)
            × (a.attestation_data.source ≡ s.previous_justified_checkpoint)
            × (s' ≡ push_previous pending s))
  kept-accepted a previous current pending s valid e =
      elim (Bool-cases (a.attestation_data.target.epoch == current)) [
        | inl now ↦
            let (source_is, result) = push_if_source-accepted _ _ _ _ s (rw now at e) in
            inl (ground arith, source_is, result)
        | inr before ↦
            let (source_is, result) = push_if_source-accepted _ _ _ _ s (rw before at e) in
            inr (ground arith, ground arith, source_is, result)
      ]

  -- What holds when an attestation has taken a state to another.
  abbrev pub Attested : Attestation → BeaconState → BeaconState → Type 0
  Attested a s s' =
      (previous current : Epoch) × (count : ℕ) × (committee : List ValidatorIndex)
      × (proposer_index : ValidatorIndex) × (get_previous_epoch env s ≡ ok previous)
      × (get_current_epoch env s ≡ ok current)
      × (compute_epoch_at_slot env a.attestation_data.slot ≡ ok a.attestation_data.target.epoch)
      × (wrapping_add a.attestation_data.slot env.context.min_attestation_inclusion_delay ≤ s.slot)
      × (s.slot ≤ wrapping_add a.attestation_data.slot env.context.slots_per_epoch)
      × (get_committee_count_per_slot env a.attestation_data.target.epoch s ≡ ok count)
      × (a.attestation_data.index < count)
      × (get_beacon_committee env a.attestation_data.slot a.attestation_data.index s ≡ ok committee)
      × (length a.aggregation_bits ≡ length committee)
      × (get_beacon_proposer_index env s ≡ ok proposer_index)
      × (((a.attestation_data.target.epoch ≡ current)
            × (a.attestation_data.source ≡ s.current_justified_checkpoint)
            × (s' ≡ push_current (pending_of a s.slot proposer_index) s))
          ⊎ ((a.attestation_data.target.epoch ≢ current)
              × (a.attestation_data.target.epoch ≡ previous)
              × (a.attestation_data.source ≡ s.previous_justified_checkpoint)
              × (s' ≡ push_previous (pending_of a s.slot proposer_index) s)))

  -- If an attestation is accepted, its target is the current or the previous epoch and the epoch of
  -- its slot, it is neither too young nor too old (in the arithmetic of 64-bit words), its index is
  -- below the number of committees, it has a bit for each member of its committee, its source is
  -- the justified checkpoint of its target epoch, and all that changes is that the pending
  -- attestation with the inclusion delay and the proposer of the block is put at the end of the
  -- attestations of that epoch.
  pub process_attestation-accepted :
      (a : Attestation) (s s' : BeaconState)
      → process_attestation env a s ≡ (ok tt, s')
      → Attested a s s'
  unfolding process_attestation
  process_attestation-accepted a s s' e =
      let (previous, previous_is, e₁) = read->>=-eq-ok _ _ s e in
      let (current, current_is, e₂) = read->>=-eq-ok _ _ s e₁ in
      let (_, timed, e₃) = quiet->>=-eq-ok _ _ s (check_timing-IsQuiet a current _) e₂ in
      let (valid, target_is, early, late) = check_timing-accepted a current _ s timed in
      let (_, checked, e₄) = quiet->>=-eq-ok _ _ s (check_committee-IsQuiet a) e₃ in
      let (count, committee, count_is, below, committee_is, fits) =
        check_committee-accepted a s checked in
      let e₅ = gets->>=-eq-ok (λ state. state.slot) _ s e₄ in
      let (proposer_index, proposer_is, e₆) = read->>=-eq-ok _ _ s e₅ in
      let e₇ = gets->>=-eq-ok (λ state. state.current_justified_checkpoint) _ s e₆ in
      let e₈ = gets->>=-eq-ok (λ state. state.previous_justified_checkpoint) _ s e₇ in
      (
        previous,
        current,
        count,
        committee,
        proposer_index,
        previous_is,
        current_is,
        target_is,
        early,
        late,
        count_is,
        below,
        committee_is,
        fits,
        proposer_is,
        kept-accepted a previous current (pending_of a s.slot proposer_index) s valid e₈,
      )
