-- ===== src/BlockProcessing/Exits.antt =====
-- ethereum-consensus/src/phase0/block_processing.rs: `process_voluntary_exit`.
pub mod Accepted
pub mod Shape
use ethereum_consensus.Prelude.{some, not, get_elem?, ltb, ◌==◌, wrapping_add}
use ethereum_consensus.Types.{SignedVoluntaryExit, far_future_epoch, voluntary_exit}
use ethereum_consensus.Errors.{
  Error, invalid_operation_error, voluntary_exit_operation, invalid_exit_index, inactive_validator,
  validator_already_exited, early_exit, validator_is_not_active_for_long_enough,
  invalid_exit_signature,
}
use ethereum_consensus.Outcome.{Outcome, ok, err, fault, ok_or}
use ethereum_consensus.Action.{Action, read, lift, guard_not, ◌>>=◌, ◌>>◌}
use ethereum_consensus.Env.{Env, voluntary_exit_object}
use ethereum_consensus.Helpers.Predicates.{is_active_validator}
use ethereum_consensus.Helpers.Epochs.{get_current_epoch}
use ethereum_consensus.Helpers.Domains.{get_domain, verify_signed_data}
use ethereum_consensus.Helpers.Exits.{initiate_validator_exit}

-- `result.map_err(|_| e)`
unfoldable pub map_err : Outcome (Unit {0}) → Error → Outcome (Unit {0})
map_err (ok u) e = ok u
map_err (err e') e = err e
map_err (fault x) e = fault x

module _ (env : Env) where
  open env use {context}

  unfoldable pub process_voluntary_exit : SignedVoluntaryExit → Action (Unit {0})
  process_voluntary_exit op = do
    let exit = op.message
    let i = exit.validator_index
    v ← read (λ state.
        ok_or (get_elem? state.validators i)
          (invalid_operation_error (voluntary_exit_operation (invalid_exit_index i))))
    current_epoch ← read (get_current_epoch env)
    guard_not (not (is_active_validator v current_epoch))
        (invalid_operation_error (voluntary_exit_operation (inactive_validator current_epoch)))
    guard_not (not (v.exit_epoch == far_future_epoch)) (
        invalid_operation_error
          (voluntary_exit_operation (validator_already_exited i v.exit_epoch)))
    guard_not (ltb current_epoch exit.epoch)
        (invalid_operation_error (voluntary_exit_operation (early_exit current_epoch exit.epoch)))
    let minimum_time_active =
        wrapping_add v.activation_eligibility_epoch context.shard_committee_period
    guard_not (ltb current_epoch minimum_time_active) (
        invalid_operation_error (
          voluntary_exit_operation
            (validator_is_not_active_for_long_enough current_epoch minimum_time_active)))
    domain ← read (get_domain env voluntary_exit (some exit.epoch))
    lift (
        map_err
          (verify_signed_data env (voluntary_exit_object exit) op.signature v.public_key domain)
          (invalid_operation_error
            (voluntary_exit_operation (invalid_exit_signature op.signature))))
    initiate_validator_exit env i
