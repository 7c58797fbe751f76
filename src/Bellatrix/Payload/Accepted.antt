-- ===== src/Bellatrix/Payload/Accepted.antt =====
-- Which execution payloads `process_execution_payload` accepts.
use ethereum_consensus.Prelude.{
  not-eq-false, ◌≡◌, ℕ, sym, ◌∙◌, ap, refl, Bool, true, false, not, ◌&&◌, ◌==◌, ltb, arith,
  wrapping_add, wrapping_mul, ◌-◌,
}
use ethereum_consensus.Prelude.Bytes.{bytes_eq_sound}
use ethereum_consensus.Types.{Root, Epoch}
use ethereum_consensus.Types.Bellatrix.{BeaconState, ExecutionPayload, ExecutionPayloadHeader}
use ethereum_consensus.Outcome.{ok, ok-injective}
use ethereum_consensus.Action.{
  read->>=-eq-ok, lift->>=-eq-ok, gets->>=-eq-ok, guard_not->>-eq-ok, modify-eq-ok,
}
use ethereum_consensus.Env.{Env, transactions_object}
use ethereum_consensus.Bellatrix.Spec.{get_current_epoch, get_randao_mix}
use ethereum_consensus.Bellatrix.Payload.{
  ExecutionEngine, header_of_payload, with_payload_header, slots_since_genesis, try_from,
  is_merge_transition_complete, compute_timestamp_at_slot, process_execution_payload,
}

-- What the consensus layer and the engine agree on when a payload has taken a state to another.
abbrev pub PayloadAccepted :
    Env → ExecutionPayload → ExecutionEngine → BeaconState → BeaconState → Type 0
PayloadAccepted env payload engine s s' =
    (is_merge_transition_complete env s ≡ true
      → payload.parent_hash ≡ s.latest_execution_payload_header.block_hash)
    × (epoch : Epoch) × (get_current_epoch env s ≡ ok epoch)
    × (get_randao_mix env epoch s ≡ ok payload.prev_randao)
    × (payload.timestamp
        ≡ wrapping_add s.common.genesis_time
            (wrapping_mul s.common.slot env.context.seconds_per_slot))
    × (engine payload ≡ ok tt)
    × (header : ExecutionPayloadHeader) × (try_from env payload ≡ ok header)
    × (s' ≡ with_payload_header header s)

not_before_genesis : (slot : ℕ) → ltb slot 0 ≡ false
not_before_genesis slot = ground arith

whole_slot : (slot : ℕ) → slot - 0 ≡ slot
whole_slot slot = omega arith

same_time : (a b : ℕ) → not (a == b) ≡ false → b ≡ a
same_time a b h = ground arith

parent_matches :
    (merged : Bool) {same : Bool} → merged && not same ≡ false → merged ≡ true → same ≡ true
parent_matches merged h is_merged = ground arith

module _ (env : Env) where
  compute_timestamp_at_slot-eq :
      (s : BeaconState)
      → compute_timestamp_at_slot env s s.common.slot
        ≡ ok (
            wrapping_add s.common.genesis_time
              (wrapping_mul s.common.slot env.context.seconds_per_slot))
  unfolding compute_timestamp_at_slot slots_since_genesis
  compute_timestamp_at_slot-eq s =
      rw (not_before_genesis s.common.slot, whole_slot s.common.slot) refl

  try_from-eq :
      (payload : ExecutionPayload) {root : Root}
      → env.externals.hash_tree_root (transactions_object payload.transactions) ≡ ok root
      → try_from env payload ≡ ok (header_of_payload payload root)
  unfolding try_from
  try_from-eq payload root_is = rw root_is refl

  -- If `process_execution_payload` accepts a payload, then, once the merge is complete, its parent is
  -- the latest payload; always, its randao mix is that of the current epoch, its time is that of the
  -- slot of the state, and the execution engine accepted it; and all that changes is the latest
  -- header, which becomes the one that the payload converts to.
  pub process_execution_payload-accepted :
      (payload : ExecutionPayload) (engine : ExecutionEngine) (s s' : BeaconState)
      → process_execution_payload env payload engine s ≡ (ok tt, s')
      → PayloadAccepted env payload engine s s'
  unfolding process_execution_payload
  process_execution_payload-accepted payload engine s s' e =
      let e₁ = gets->>=-eq-ok (λ state. state.latest_execution_payload_header.block_hash) _ s e in
      let e₂ = gets->>=-eq-ok (is_merge_transition_complete env) _ s e₁ in
      let (parent, e₃) = guard_not->>-eq-ok _ _ _ s e₂ in
      let (epoch, epoch_is, e₄) = read->>=-eq-ok _ _ s e₃ in
      let (mix, mix_is, e₅) = read->>=-eq-ok _ _ s e₄ in
      let (randao, e₆) = guard_not->>-eq-ok _ _ _ s e₅ in
      let (time, time_is, e₇) = read->>=-eq-ok _ _ s e₆ in
      let (timely, e₈) = guard_not->>-eq-ok _ _ _ s e₇ in
      let (_, agreed, e₉) = lift->>=-eq-ok _ _ s e₈ in
      let (root, root_is, e₁₀) = lift->>=-eq-ok _ _ s e₉ in
      (
        λ merged. bytes_eq_sound _ _ (parent_matches _ parent merged),
        epoch,
        epoch_is,
        mix_is ∙ ap ok (sym (bytes_eq_sound _ _ (not-eq-false _ randao))),
        sym (same_time _ _ timely) ∙ ok-injective (sym time_is ∙ compute_timestamp_at_slot-eq s),
        agreed,
        header_of_payload payload root,
        try_from-eq payload root_is,
        sym (modify-eq-ok _ e₁₀),
      )
