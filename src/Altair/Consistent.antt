-- ===== src/Altair/Consistent.antt =====
-- The lists of an altair state that have an entry for each validator, and how an action of phase0
-- keeps them in step.
use ethereum_consensus.Prelude.{ℕ, ◌≡◌, refl, sym, ◌∙◌, length}
use ethereum_consensus.Types.Altair.{BeaconState}
use ethereum_consensus.Action.{Action}
use ethereum_consensus.Action.Keeps.{Keeps}
use ethereum_consensus.Shape.{Shape, HasShape}
use ethereum_consensus.RegistrySize.{HasSize}
use ethereum_consensus.Altair.Shared.{shared, with_shared, on_shared}

pub record IsConsistent (k : Shape) (s : BeaconState) : Type 0 where
  pub shared_is : HasShape k (shared s)
  pub previous_is : length s.previous_epoch_participation ≡ length s.validators
  pub current_is : length s.current_epoch_participation ≡ length s.validators
  pub scores_is : length s.inactivity_scores ≡ length s.validators

-- An action of phase0 that keeps the shape of its state and the number of validators.
pub on_shared-IsConsistent :
    {k : Shape} {A : Type 0} (m : Action A)
    → Keeps (HasShape k) m
    → ((n : ℕ) → Keeps (HasSize n) m)
    → Keeps (IsConsistent k) (on_shared m)
unfolding shared with_shared on_shared
on_shared-IsConsistent m shapes sizes = record {
  at = λ s h.
      let shape = shapes.at (shared s) h.shared_is in
      let size = (sizes (length s.validators)).at (shared s) (record { size_is = refl }) in
      record {
        shared_is = record {
          slot_is = shape.slot_is;
          block_roots_is = shape.block_roots_is;
          state_roots_is = shape.state_roots_is;
          randao_mixes_is = shape.randao_mixes_is;
          slashings_is = shape.slashings_is;
          balances_is = shape.balances_is;
        };
        previous_is = h.previous_is ∙ sym size.size_is;
        current_is = h.current_is ∙ sym size.size_is;
        scores_is = h.scores_is ∙ sym size.size_is;
      };
}
