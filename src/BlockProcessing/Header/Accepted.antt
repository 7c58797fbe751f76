-- ===== src/BlockProcessing/Header/Accepted.antt =====
-- Which block headers `process_block_header` accepts.
use ethereum_consensus.Prelude.{
  not-eq-false, ◌≡◌, ◌<◌, ℕ, some, get_elem?, refl, ap, sym, ◌∙◌, not, false, arith, ◌==◌, le→leb,
  ==_refl,
}
use ethereum_consensus.Prelude.Bytes.{bytes_eq_sound}
use ethereum_consensus.Types.{Root, Validator, BeaconBlock, BeaconState}
use ethereum_consensus.Errors.{invalid_header_error, older_than_latest_block_header}
use ethereum_consensus.Outcome.{ok, err, unwrap-eq-ok}
use ethereum_consensus.Action.{
  read->>=-eq-ok, lift->>=-eq-ok, gets->>=-eq-ok, guard_not->>-eq-ok, guard_not-eq-ok,
  modify->>=-eq-ok, ◌>>=◌,
}
use ethereum_consensus.Env.{Env, header_object, body_object}
use ethereum_consensus.Helpers.Committees.{get_beacon_proposer_index}
use ethereum_consensus.BlockProcessing.Header.{header_of, with_header, process_block_header}

-- What holds when a block header has taken a state to another.
abbrev pub HeaderAccepted : Env → BeaconBlock → BeaconState → BeaconState → Type 0
HeaderAccepted env block s s' =
    (block.slot ≡ s.slot)
    × (s.latest_block_header.slot < block.slot)
    × (get_beacon_proposer_index env s ≡ ok block.proposer_index)
    × (env.externals.hash_tree_root (header_object s.latest_block_header) ≡ ok block.parent_root)
    × (body_root : Root) × (env.externals.hash_tree_root (body_object block.body) ≡ ok body_root)
    × (proposer : Validator) × (get_elem? s.validators block.proposer_index ≡ some proposer)
    × (proposer.slashed ≡ false)
    × (s' ≡ with_header (header_of block body_root) s)

same_number : (a b : ℕ) → not (a == b) ≡ false → b ≡ a
same_number a b h = ground arith

module _ (env : Env) where
  -- If `process_block_header` accepts a block, then the block is for the slot of the state, later
  -- than the latest header, by the proposer of the slot, who is not slashed, and on top of the
  -- latest header, and all that changes is the latest header, which is that of the block with its
  -- state root left open.
  pub process_block_header-accepted :
      (block : BeaconBlock) (s s' : BeaconState)
      → process_block_header env block s ≡ (ok tt, s')
      → HeaderAccepted env block s s'
  unfolding process_block_header with_header
  process_block_header-accepted block s s' e =
      let e₁ = gets->>=-eq-ok (λ state. state.slot) _ s e in
      let (slot_is, e₂) = guard_not->>-eq-ok _ _ _ s e₁ in
      let e₃ = gets->>=-eq-ok (λ state. state.latest_block_header) _ s e₂ in
      let (later, e₄) = guard_not->>-eq-ok _ _ _ s e₃ in
      let (proposer_index, proposer_is, e₅) = read->>=-eq-ok _ _ s e₄ in
      let (index_is, e₆) = guard_not->>-eq-ok _ _ _ s e₅ in
      let (expected, expected_is, e₇) = lift->>=-eq-ok _ _ s e₆ in
      let (parent_is, e₈) = guard_not->>-eq-ok _ _ _ s e₇ in
      let (body_root, body_root_is, e₉) = lift->>=-eq-ok _ _ s e₈ in
      let e₁₀ = modify->>=-eq-ok (with_header (header_of block body_root)) _ s e₉ in
      let after = with_header (header_of block body_root) s in
      let (proposer, found, e₁₁) = read->>=-eq-ok _ _ after e₁₀ in
      let (unslashed, result) = guard_not-eq-ok _ _ e₁₁ in
      (
        sym (same_number _ _ slot_is),
        ground arith,
        proposer_is ∙ ap ok (same_number _ _ index_is),
        expected_is ∙ ap ok (sym (bytes_eq_sound _ _ (not-eq-false _ parent_is))),
        body_root,
        body_root_is,
        proposer,
        unwrap-eq-ok _ found,
        unslashed,
        sym result,
      )

  -- No second block is accepted in a slot: once a header has been accepted, every block for the
  -- same slot is refused as no newer than the latest header, and the state stays as it is.
  pub process_block_header-once :
      (block second : BeaconBlock) (s s' : BeaconState)
      → process_block_header env block s ≡ (ok tt, s')
      → second.slot ≡ block.slot
      → process_block_header env second s'
        ≡ (err (invalid_header_error (older_than_latest_block_header block.slot block.slot)), s')
  unfolding process_block_header with_header header_of ◌>>=◌
  process_block_header-once block second s s' e same =
      let (slot_is, _, _, _, _, _, _, _, _, result) = process_block_header-accepted block s s' e in
      let new_slot : s'.slot ≡ block.slot = ap (λ (t : BeaconState). t.slot) result ∙ sym slot_is in
      let latest : s'.latest_block_header.slot ≡ block.slot =
        ap (λ (t : BeaconState). t.latest_block_header.slot) result in
      rw (new_slot, latest, same, ==_refl block.slot, le→leb block.slot block.slot (omega arith))
        refl
