-- ===== src/BlockProcessing/Attestations/Shape.antt =====
-- `process_attestation` keeps the shape of the state.
use ethereum_consensus.Prelude.{Bool, arith}
use ethereum_consensus.Types.{Epoch, Checkpoint, Attestation, PendingAttestation, BeaconState}
use ethereum_consensus.Action.Keeps.{Keeps, Keeps-modify, keeps_rules}
use ethereum_consensus.Env.{Env}
use ethereum_consensus.Shape.{Shape, HasShape}
use ethereum_consensus.BlockProcessing.Attestations.{
  push_current, push_previous, push_if_source, check_timing, check_committee, process_attestation,
}

module _ {k : Shape} where
  push_current-HasShape :
      (a : PendingAttestation) (s : BeaconState) → HasShape k s → HasShape k (push_current a s)
  unfolding push_current
  push_current-HasShape a s h = ground arith

  push_previous-HasShape :
      (a : PendingAttestation) (s : BeaconState) → HasShape k s → HasShape k (push_previous a s)
  unfolding push_previous
  push_previous-HasShape a s h = ground arith

  push_if_source-HasShape :
      (expected source : Checkpoint) (epoch : Epoch) (push : BeaconState → BeaconState)
      → ((s : BeaconState) → HasShape k s → HasShape k (push s))
      → Keeps (HasShape k) (push_if_source expected source epoch push)
  unfolding push_if_source
  push_if_source-HasShape expected source epoch push h =
      search (keeps_rules, Keeps-modify, h) depth 9

module _ (env : Env) {k : Shape} where
  pub check_timing-HasShape :
      (a : Attestation) (epoch : Epoch) (valid : Bool)
      → Keeps (HasShape k) (check_timing env a epoch valid)
  unfolding check_timing
  check_timing-HasShape a epoch valid = search keeps_rules depth 12

  check_committee-HasShape : (a : Attestation) → Keeps (HasShape k) (check_committee env a)
  unfolding check_committee
  check_committee-HasShape a = search keeps_rules depth 12

  pub process_attestation-HasShape :
      (a : Attestation) → Keeps (HasShape k) (process_attestation env a)
  unfolding process_attestation
  process_attestation-HasShape a =
      search
        (
          keeps_rules, check_timing-HasShape, check_committee-HasShape, push_if_source-HasShape,
          push_current-HasShape, push_previous-HasShape,
        )
        depth 14
