-- ===== src/Transition/Accepted.antt =====
-- What a block that `state_transition` accepts has been checked for.
use ethereum_consensus.Prelude.{not-eq-false, ◌<◌, ◌≡◌, ap, sym, ◌∙◌, length, u64_mod}
use ethereum_consensus.Prelude.Bytes.{bytes_eq_sound}
use ethereum_consensus.Types.{BeaconState, SignedBeaconBlock, enabled}
use ethereum_consensus.Outcome.{ok}
use ethereum_consensus.Action.{>>=-eq-ok, read->>=-eq-ok, guard_not-eq-ok}
use ethereum_consensus.Env.{Env, state_object}
use ethereum_consensus.Shape.{HasShape, shape_of}
use ethereum_consensus.BlockProcessing.Process.{process_block}
use ethereum_consensus.BlockProcessing.Process.Shape.{process_block-HasShape}
use ethereum_consensus.Helpers.Domains.{verify_block_signature}
use ethereum_consensus.Transition.{process_slots, state_transition_block_in_slot, state_transition}
use ethereum_consensus.Transition.Slots.{process_slots-HasShape}

module _ (env : Env) (signed_block : SignedBeaconBlock) where
  -- A block that is accepted with validation has been processed, and its state root is that of the
  -- state that it leaves.
  enabled-accepted :
      (s s' : BeaconState)
      → state_transition_block_in_slot env signed_block enabled s ≡ (ok tt, s')
      → (verify_block_signature env signed_block s ≡ ok tt)
        × (process_block env signed_block.message s ≡ (ok tt, s'))
        × (env.externals.hash_tree_root (state_object s') ≡ ok signed_block.message.state_root)
  unfolding state_transition_block_in_slot
  enabled-accepted s s' e =
      let (_, signed, e₁) = read->>=-eq-ok _ _ s e in
      let (_, s₂, processed, e₂) = >>=-eq-ok _ _ s e₁ in
      let (root, root_is, e₃) = read->>=-eq-ok _ _ s₂ e₂ in
      let (matches, same) = guard_not-eq-ok _ _ e₃ in
      let root_eq = bytes_eq_sound signed_block.message.state_root root (not-eq-false _ matches) in
      (signed, rw (← same) processed, rw (← same) (root_is ∙ ap ok (sym root_eq)))

  -- If every validator has a balance, and `state_transition` accepts a block with validation, then
  -- the block is for a later slot, the slots up to it were processed, in the state that this left
  -- the signature was valid and the block was processed without an error, the new state stands at
  -- the slot of the block with the vector lengths of the old one and a balance for each validator,
  -- and the state root of the block is the hash tree root of the new state.
  pub state_transition-accepted :
      (s s' : BeaconState)
      → length s.balances ≡ length s.validators
      → signed_block.message.slot < u64_mod
      → state_transition env signed_block enabled s ≡ (ok tt, s')
      → (s.slot < signed_block.message.slot)
        × (s₁ : BeaconState) × (process_slots env signed_block.message.slot s ≡ (ok tt, s₁))
        × (verify_block_signature env signed_block s₁ ≡ ok tt)
        × (process_block env signed_block.message s₁ ≡ (ok tt, s'))
        × HasShape (record (shape_of s) { slot = signed_block.message.slot }) s'
        × (env.externals.hash_tree_root (state_object s') ≡ ok signed_block.message.state_root)
  unfolding state_transition
  state_transition-accepted s s' valid small e =
      let (_, s₁, slots, e₁) = >>=-eq-ok _ _ s e in
      let (later, h) =
        process_slots-HasShape env signed_block.message.slot s s₁ valid small slots in
      let (signed, processed, root_is) = enabled-accepted s₁ s' e₁ in
      let h' = (process_block-HasShape env signed_block.message).at s₁ h in
      (later, s₁, slots, signed, processed, rw (ap (λ p. p.1) processed) at h', root_is)
