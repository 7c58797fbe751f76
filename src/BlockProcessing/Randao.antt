-- ===== src/BlockProcessing/Randao.antt =====
-- ethereum-consensus/src/phase0/block_processing.rs: `process_randao` and `process_eth1_data`.
pub mod Shape
use ethereum_consensus.Prelude.{
  Bool, true, false, some, [], ◌∷◌, ◌++◌, length, filter, ltb, if◌then◌else◌, wrapping_mul,
}
use ethereum_consensus.Prelude.Bytes.{xor_bytes}
use ethereum_consensus.Types.{Eth1Data, BeaconBlockBody, BeaconState, randao, eth1_data_eq}
use ethereum_consensus.Errors.{invalid_operation_error, randao_reveal}
use ethereum_consensus.Outcome.{Outcome, ok, err, fault, index, rem}
use ethereum_consensus.Action.{Action, read, gets, lift, modify, pure, guard_not, ◌>>=◌, ◌>>◌}
use ethereum_consensus.Env.{Env, epoch_object}
use ethereum_consensus.Helpers.Epochs.{get_current_epoch}
use ethereum_consensus.Helpers.Accessors.{get_randao_mix}
use ethereum_consensus.Helpers.Committees.{get_beacon_proposer_index}
use ethereum_consensus.Helpers.Domains.{get_domain, compute_signing_root}
use ethereum_consensus.EpochProcessing.Resets.{write_mix}

-- `result.is_err()`
unfoldable pub is_err : Outcome (Unit {0}) → Outcome Bool
is_err (ok u) = ok false
is_err (err e) = ok true
is_err (fault x) = fault x

unfoldable pub push_vote : Eth1Data → BeaconState → BeaconState
push_vote vote state = record state { eth1_data_votes = state.eth1_data_votes ++ vote ∷ [] }

unfoldable pub with_eth1_data : Eth1Data → BeaconState → BeaconState
with_eth1_data d state = record state { eth1_data = d }

module _ (env : Env) where
  open env use {context, externals}

  unfoldable pub process_randao : BeaconBlockBody → Action (Unit {0})
  process_randao body = do
    epoch ← read (get_current_epoch env)
    proposer_index ← read (get_beacon_proposer_index env)
    proposer ← read (λ state. index state.validators proposer_index)
    domain ← read (get_domain env randao (some epoch))
    signing_root ← lift (compute_signing_root env (epoch_object epoch) domain)
    let reveal = body.randao_reveal
    bad ← lift (is_err (externals.verify_signature proposer.public_key signing_root reveal))
    guard_not bad (invalid_operation_error (randao_reveal reveal))
    old_mix ← read (get_randao_mix env epoch)
    i ← lift (rem epoch context.epochs_per_historical_vector)
    write_mix i (xor_bytes old_mix (externals.hash reveal))

  unfoldable pub process_eth1_data : BeaconBlockBody → Action (Unit {0})
  process_eth1_data body = do
    modify (push_vote body.eth1_data)
    votes ← gets (λ state. state.eth1_data_votes)
    let count = length (filter (λ vote. eth1_data_eq vote body.eth1_data) votes)
    let period = wrapping_mul context.epochs_per_eth1_voting_period context.slots_per_epoch
    if ltb period (wrapping_mul count 2) then modify (with_eth1_data body.eth1_data) else pure tt
