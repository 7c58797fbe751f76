-- ===== src/EpochProcessing/Justification/Weighing.antt =====
-- What `weigh_justification_and_finalization` leaves when it returns, as a function of the two tests
-- and of the checkpoints that it may justify.
use ethereum_consensus.Prelude.{
  ◌≡◌, refl, true, false, inl, inr, ap, sym, ◌∙◌, inl, inr, Bool, leb, wrapping_mul, Bool-cases,
  if◌then◌else◌,
}
use ethereum_consensus.Types.{Root, Epoch, Gwei, Checkpoint, BeaconState}
use ethereum_consensus.Outcome.{Outcome, ok}
use ethereum_consensus.Action.{>>=-eq-ok, read->>=-eq-ok, ◌>>=◌}
use ethereum_consensus.Env.{Env}
use ethereum_consensus.Helpers.Epochs.{get_current_epoch, get_previous_epoch}
use ethereum_consensus.Helpers.Accessors.{get_block_root, get_block_root_at_slot}
use ethereum_consensus.EpochProcessing.Justification.{
  begin_justification, justify_previous, justify_current, justify_epoch, finalize, with_finalized,
  weigh_justification_and_finalization,
}

module _ (env : Env) where
  -- One `if` of the justification, on success: the justification if the balance is enough, with the
  -- block root of the epoch.
  justify_epoch-cases :
      (justify : Checkpoint → BeaconState → BeaconState) (target total : Gwei) (epoch : Epoch)
      (s : BeaconState) {s' : BeaconState}
      → justify_epoch env justify target total epoch s ≡ (ok tt, s')
      → (root : Root) × (leb (wrapping_mul total 2) (wrapping_mul target 3) ≡ true
          → get_block_root env epoch s ≡ ok root)
        × (s' ≡ (
            if leb (wrapping_mul total 2) (wrapping_mul target 3)
            then justify (record { epoch = epoch; root = root }) s
            else s))
  unfolding justify_epoch ◌>>=◌
  justify_epoch-cases justify target total epoch s e =
      elim (Bool-cases (leb (wrapping_mul total 2) (wrapping_mul target 3))) [
        | inl enough ↦
            let (root, root_is, e') =
              read->>=-eq-ok (get_block_root env epoch) _ s (rw enough at e) in
            (
              root,
              λ _. root_is,
              rw enough (sym (ap (λ (p : Outcome (Unit {0}) × BeaconState). p.1) e')),
            )
        | inr short ↦ (
          s.finalized_checkpoint.root,
          λ enough. let impossible : true ≡ false = sym enough ∙ short in absurd cc,
          rw short (sym (ap (λ (p : Outcome (Unit {0}) × BeaconState). p.1) (rw short at e))),
        )
      ]

  -- What is justified is no part of the history.
  get_block_root-justify :
      (epoch : Epoch) (first : Bool) (checkpoint : Checkpoint) (s : BeaconState)
      → get_block_root env epoch (
          if first
          then justify_previous checkpoint (begin_justification s)
          else begin_justification s)
        ≡ get_block_root env epoch s
  unfolding get_block_root get_block_root_at_slot justify_previous begin_justification
  get_block_root-justify epoch true checkpoint s = refl
  get_block_root-justify epoch false checkpoint s = refl

-- The state after both justifications, given the two tests and the two checkpoints.
unfoldable pub justified : Bool → Bool → Checkpoint → Checkpoint → BeaconState → BeaconState
justified previous_enough current_enough previous current s =
    let s₁ =
      if previous_enough
      then justify_previous previous (begin_justification s)
      else begin_justification s in
    if current_enough then justify_current current s₁ else s₁

-- The last part, on the state after the justifications, with the old checkpoints of `s`.
unfoldable pub finalize_in : BeaconState → Epoch → BeaconState → BeaconState
finalize_in s epoch j =
    with_finalized
      (finalize j.justification_bits epoch s.previous_justified_checkpoint
        s.current_justified_checkpoint j.finalized_checkpoint)
      j

module _ (env : Env) (total previous_target current_target : Gwei) where
  abbrev enough : Gwei → Bool
  enough target = leb (wrapping_mul total 2) (wrapping_mul target 3)

  pub weigh-justified :
      (s s' : BeaconState)
      → weigh_justification_and_finalization env total previous_target current_target s
        ≡ (ok tt, s')
      → (previous current : Checkpoint) × (get_previous_epoch env s ≡ ok previous.epoch)
        × (get_current_epoch env s ≡ ok current.epoch)
        × (enough previous_target ≡ true → get_block_root env previous.epoch s ≡ ok previous.root)
        × (enough current_target ≡ true → get_block_root env current.epoch s ≡ ok current.root)
        × (s'
            ≡ finalize_in s current.epoch
                (justified (enough previous_target) (enough current_target) previous current s))
  unfolding finalize_in weigh_justification_and_finalization justified begin_justification
      get_block_root get_block_root_at_slot ◌>>=◌
  weigh-justified s s' e =
      let (p, p_is, e₁) = read->>=-eq-ok (get_previous_epoch env) _ s e in
      let (c, c_is, e₂) = read->>=-eq-ok (get_current_epoch env) _ s e₁ in
      let (_, s₁, done_1, e₃) =
        >>=-eq-ok (justify_epoch env justify_previous previous_target total p) _
          (begin_justification s) e₂ in
      let (_, s₂, done_2, e₄) =
        >>=-eq-ok (justify_epoch env justify_current current_target total c) _ s₁ e₃ in
      let (root_1, read_1, is_1) =
        justify_epoch-cases env justify_previous previous_target total p _ done_1 in
      let (root_2, read_2, is_2) =
        justify_epoch-cases env justify_current current_target total c _ done_2 in
      let current : Checkpoint = record { epoch = c; root = root_2 } in
      let second =
        λ (j : BeaconState). if enough current_target then justify_current current j else j in
      (
        record { epoch = p; root = root_1 },
        current,
        p_is,
        c_is,
        read_1,
        λ yes.
            sym (
              get_block_root-justify env c (enough previous_target)
                (record { epoch = p; root = root_1 }) s)
            ∙ ap (get_block_root env c) (sym is_1)
            ∙ read_2 yes,
        sym (ap (λ (q : Outcome (Unit {0}) × BeaconState). q.1) e₄)
            ∙ ap (finalize_in s c) (is_2 ∙ ap second is_1),
      )
