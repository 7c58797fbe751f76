-- ===== src/Tests/Epochs.antt =====
-- The theorems about the processing of an epoch at concrete inputs.
use ethereum_consensus.Prelude.{◌≡◌, ◌≤◌, refl, arith, leb, wrapping_mul, true, false}
use ethereum_consensus.Types.{BeaconState}
use ethereum_consensus.Outcome.{ok}
use ethereum_consensus.Helpers.Epochs.{get_current_epoch, get_previous_epoch}
use ethereum_consensus.EpochProcessing.Justification.{weigh_justification_and_finalization}
use ethereum_consensus.EpochProcessing.Justification.Finality.{
  weigh-ordered, weigh-finalizes, FinalizedBy,
}
use ethereum_consensus.EpochProcessing.Justification.Justified.{JustifiedBy, weigh-justifies}
use ethereum_consensus.Tests.Run.{run}
use ethereum_consensus.Tests.Samples.{env, state_at, checkpoint}

-- The third epoch, where the first two are justified and the first is final.
abbrev before : BeaconState
before = record (state_at 15) {
  justification_bits = record { bit_0 = true; bit_1 = true; bit_2 = false; bit_3 = false };
  previous_justified_checkpoint = checkpoint 1;
  current_justified_checkpoint = checkpoint 2;
  finalized_checkpoint = checkpoint 1;
}

abbrev after : BeaconState
after = (weigh_justification_and_finalization env 128 128 96 before).1

weigh_ok : (weigh_justification_and_finalization env 128 128 96 before).0 ≡ ok tt
unfolding run
weigh_ok = refl

weigh_returns : weigh_justification_and_finalization env 128 128 96 before ≡ (ok tt, after)
weigh_returns = λ i. (weigh_ok i, after)

previous_is_2 : get_previous_epoch env before ≡ ok 2
unfolding run
previous_is_2 = refl

current_is_3 : get_current_epoch env before ≡ ok 3
unfolding run
current_is_3 = refl

weigh-ordered_example :
    (1 ≤ after.finalized_checkpoint.epoch)
    × (after.finalized_checkpoint.epoch ≤ after.previous_justified_checkpoint.epoch)
    × (after.previous_justified_checkpoint.epoch ≤ after.current_justified_checkpoint.epoch)
    × (after.current_justified_checkpoint.epoch ≤ 3)
weigh-ordered_example =
    weigh-ordered env 128 128 96 before after 2 3 previous_is_2 current_is_3 (omega arith)
      (omega arith) (omega arith) (omega arith) weigh_returns

weigh-justifies_example :
    JustifiedBy env
      (leb (wrapping_mul 128 2) (wrapping_mul 128 3))
      (leb (wrapping_mul 128 2) (wrapping_mul 96 3))
      2
      3
      before
      after
weigh-justifies_example =
    weigh-justifies env 128 128 96 before after 2 3 previous_is_2 current_is_3 weigh_returns

weigh-finalizes_example : FinalizedBy 3 before after
weigh-finalizes_example = weigh-finalizes env 128 128 96 before after 3 current_is_3 weigh_returns
