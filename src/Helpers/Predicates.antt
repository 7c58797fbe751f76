-- ===== src/Helpers/Predicates.antt =====
-- ethereum-consensus/src/phase0/helpers.rs: the predicates on a validator and on attestation data.
pub mod Slashable
use ethereum_consensus.Prelude.{Bool, not, ◌&&◌, ◌||◌, ◌==◌, ltb, leb}
use ethereum_consensus.Types.{
  Epoch, Context, Validator, AttestationData, BeaconState, attestation_data_eq, far_future_epoch,
}

unfoldable pub is_active_validator : Validator → Epoch → Bool
is_active_validator v epoch = leb v.activation_epoch epoch && ltb epoch v.exit_epoch

unfoldable pub is_eligible_for_activation_queue : Context → Validator → Bool
is_eligible_for_activation_queue context v =
    v.activation_eligibility_epoch == far_future_epoch
    && v.effective_balance == context.max_effective_balance

unfoldable pub is_eligible_for_activation : BeaconState → Validator → Bool
is_eligible_for_activation state v =
    leb v.activation_eligibility_epoch state.finalized_checkpoint.epoch
    && v.activation_epoch == far_future_epoch

unfoldable pub is_slashable_validator : Validator → Epoch → Bool
is_slashable_validator v epoch =
    not v.slashed && (leb v.activation_epoch epoch && ltb epoch v.withdrawable_epoch)

unfoldable pub is_slashable_attestation_data : AttestationData → AttestationData → Bool
is_slashable_attestation_data data_1 data_2 =
    (not (attestation_data_eq data_1 data_2) && data_1.target.epoch == data_2.target.epoch)
    || (ltb data_1.source.epoch data_2.source.epoch && ltb data_2.target.epoch data_1.target.epoch)
