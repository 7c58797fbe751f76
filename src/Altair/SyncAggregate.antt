-- ===== src/Altair/SyncAggregate.antt =====
-- ethereum-consensus/src/altair/block_processing.rs and crypto.rs: `process_sync_aggregate`.
pub mod Shape
use ethereum_consensus.Prelude.{
  ℕ, suc, ◌-◌, ◌/◌, Bool, ◌&&◌, Option, none, some, List, [], ◌∷◌, is_empty, replicate, max,
  if◌then◌else◌, wrapping_mul,
}
use ethereum_consensus.Prelude.Bytes.{Bytes, bytes_eq}
use ethereum_consensus.Types.{
  Gwei, BlsPublicKey, BlsSignature, ValidatorIndex, Validator, sync_committee,
}
use ethereum_consensus.Types.Altair.{
  BeaconState, SyncAggregate, sync_reward_weight, proposer_weight, weight_denominator,
}
use ethereum_consensus.Errors.{
  invalid_operation_error, sync_aggregate_operation, invalid_sync_signature,
}
use ethereum_consensus.Outcome
use ethereum_consensus.Outcome.{Outcome, ok, div, unwrap}
use ethereum_consensus.Action.{StateAction, read, gets, lift, pure, guard_not, ◌>>=◌, ◌>>◌}
use ethereum_consensus.Env.{Env, root_object}
use ethereum_consensus.Helpers.Epochs.{compute_epoch_at_slot}
use ethereum_consensus.Helpers.Domains.{compute_signing_root}
use ethereum_consensus.BlockProcessing.Randao.{is_err}
use ethereum_consensus.Altair.Spec.{
  get_domain, get_block_root_at_slot, get_total_active_balance, get_beacon_proposer_index,
  increase_balance, decrease_balance,
}
use ethereum_consensus.Altair.Deltas.{get_base_reward_per_increment}

-- The keys whose bit is set; the shorter of the two lists ends the walk.
unfoldable pub participant_public_keys : List BlsPublicKey → List Bool → List BlsPublicKey
participant_public_keys [] bits = []
participant_public_keys (key ∷ keys) [] = []
participant_public_keys (key ∷ keys) (bit ∷ bits) =
    let rest = participant_public_keys keys bits in if bit then key ∷ rest else rest

-- The map from the keys to the indices, where a later validator with the same key stays.
unfoldable pub last_position_of :
    BlsPublicKey → ℕ → List Validator → Option ValidatorIndex → Option ValidatorIndex
last_position_of key i [] found = found
last_position_of key i (v ∷ validators) found =
    last_position_of key (suc i) validators (if bytes_eq v.public_key key then some i else found)

-- `.get(public_key).expect(...)` for each member of the committee
unfoldable pub committee_indices :
    List Validator → List BlsPublicKey → Outcome (List ValidatorIndex)
committee_indices validators [] = ok []
committee_indices validators (key ∷ keys) =
    Outcome.◌>>=◌ (unwrap (last_position_of key 0 validators none))
      λ i. Outcome.◌>>=◌ (committee_indices validators keys) λ rest. ok (i ∷ rest)

-- `INFINITY_COMPRESSED_SIGNATURE`
abbrev pub infinity_compressed_signature : BlsSignature
infinity_compressed_signature = 192 ∷ replicate 95 0

unfoldable pub is_infinity : BlsSignature → Bool
is_infinity signature = bytes_eq signature infinity_compressed_signature

module _ (env : Env) where
  open env use {context, externals}

  unfoldable pub eth_fast_aggregate_verify :
      List BlsPublicKey → Bytes → BlsSignature → Outcome (Unit {0})
  eth_fast_aggregate_verify public_keys message signature =
      if is_empty public_keys && is_infinity signature
      then ok tt
      else externals.fast_aggregate_verify public_keys message signature

  -- The check of the signature, over the root of the block of the slot before.
  unfoldable pub verify_sync_aggregate : SyncAggregate → StateAction BeaconState (Unit {0})
  verify_sync_aggregate aggregate = do
    committee ← gets (λ state. state.current_sync_committee)
    let keys = participant_public_keys committee.public_keys aggregate.sync_committee_bits
    slot ← gets (λ state. state.slot)
    let previous_slot = max slot 1 - 1
    epoch ← lift (compute_epoch_at_slot env previous_slot)
    domain ← read (get_domain env sync_committee (some epoch))
    root_at_slot ← read (get_block_root_at_slot env previous_slot)
    signing_root ← lift (compute_signing_root env (root_object root_at_slot) domain)
    let signature = aggregate.sync_committee_signature
    bad ← lift (is_err (eth_fast_aggregate_verify keys signing_root signature))
    guard_not bad (
        invalid_operation_error
          (sync_aggregate_operation (invalid_sync_signature signature signing_root)))

  unfoldable pub participant_reward : BeaconState → Outcome Gwei
  participant_reward state =
      Outcome.◌>>=◌ (get_total_active_balance env state) λ total_active_balance.
        Outcome.◌>>=◌ (div total_active_balance context.effective_balance_increment) λ increments.
          Outcome.◌>>=◌ (get_base_reward_per_increment env state) λ per_increment.
            let total_base_rewards = wrapping_mul per_increment increments in
            let share = wrapping_mul total_base_rewards sync_reward_weight / weight_denominator in
            Outcome.◌>>=◌ (div share context.slots_per_epoch)
              λ max_participant_rewards. div max_participant_rewards context.sync_committee_size

  unfoldable pub proposer_reward : Gwei → Gwei
  proposer_reward reward =
      wrapping_mul reward proposer_weight / (weight_denominator - proposer_weight)

  -- The body of the last loop.
  unfoldable pub reward_participant :
      Gwei → ValidatorIndex → Bool → StateAction BeaconState (Unit {0})
  reward_participant reward i bit =
      if bit
      then (do
        increase_balance i reward
        proposer_index ← read (get_beacon_proposer_index env)
        increase_balance proposer_index (proposer_reward reward))
      else decrease_balance i reward

  unfoldable pub reward_participants :
      Gwei → List ValidatorIndex → List Bool → StateAction BeaconState (Unit {0})
  reward_participants reward [] bits = pure tt
  reward_participants reward (i ∷ indices) [] = pure tt
  reward_participants reward (i ∷ indices) (bit ∷ bits) =
      reward_participant reward i bit >> reward_participants reward indices bits

  unfoldable pub process_sync_aggregate : SyncAggregate → StateAction BeaconState (Unit {0})
  process_sync_aggregate aggregate = do
    verify_sync_aggregate aggregate
    reward ← read participant_reward
    indices ←
        read (λ state. committee_indices state.validators state.current_sync_committee.public_keys)
    reward_participants reward indices aggregate.sync_committee_bits
