-- ===== src/EpochProcessing/Justification/Shape.antt =====
-- Justification and finalization keep the shape of the state.
use ethereum_consensus.Prelude.{arith}
use ethereum_consensus.Types.{Epoch, Gwei, Checkpoint, BeaconState}
use ethereum_consensus.Action.Keeps.{Keeps, Keeps-modify, keeps_rules}
use ethereum_consensus.Env.{Env}
use ethereum_consensus.Shape.{Shape, HasShape}
use ethereum_consensus.EpochProcessing.Justification.{
  begin_justification, justify_previous, justify_current, with_finalized, justify_epoch,
  weigh_justification_and_finalization, process_justification_and_finalization,
}

module _ {k : Shape} where
  begin_justification-HasShape :
      (s : BeaconState) → HasShape k s → HasShape k (begin_justification s)
  unfolding begin_justification
  begin_justification-HasShape s h = ground arith

  justify_previous-HasShape :
      (c : Checkpoint) (s : BeaconState) → HasShape k s → HasShape k (justify_previous c s)
  unfolding justify_previous
  justify_previous-HasShape c s h = ground arith

  justify_current-HasShape :
      (c : Checkpoint) (s : BeaconState) → HasShape k s → HasShape k (justify_current c s)
  unfolding justify_current
  justify_current-HasShape c s h = ground arith

  with_finalized-HasShape :
      (c : Checkpoint) (s : BeaconState) → HasShape k s → HasShape k (with_finalized c s)
  unfolding with_finalized
  with_finalized-HasShape c s h = ground arith

module _ (env : Env) {k : Shape} where
  justify_epoch-HasShape :
      (justify : Checkpoint → BeaconState → BeaconState) (target total : Gwei) (epoch : Epoch)
      → ((c : Checkpoint) (s : BeaconState) → HasShape k s → HasShape k (justify c s))
      → Keeps (HasShape k) (justify_epoch env justify target total epoch)
  unfolding justify_epoch
  justify_epoch-HasShape justify target total epoch h = search (keeps_rules, Keeps-modify, h)

  pub weigh-HasShape :
      (total previous_target current_target : Gwei)
      → Keeps
          (HasShape k)
          (weigh_justification_and_finalization env total previous_target current_target)
  unfolding weigh_justification_and_finalization
  weigh-HasShape total previous_target current_target =
      search
        (
          keeps_rules, Keeps-modify, begin_justification-HasShape, justify_previous-HasShape,
          justify_current-HasShape, with_finalized-HasShape, justify_epoch-HasShape,
        )
        depth 14

  pub process_justification-HasShape :
      Keeps (HasShape k) (process_justification_and_finalization env)
  unfolding process_justification_and_finalization
  process_justification-HasShape = search (keeps_rules, weigh-HasShape) depth 12
