-- ===== src/Bellatrix/Payload.antt =====
-- ethereum-consensus/src/bellatrix/helpers.rs, block_processing.rs and execution_engine.rs: the
-- execution payload of a block. The client's execution engine is a parameter, the method
-- `verify_and_notify_new_payload` of the trait `ExecutionEngine`.
pub mod Accepted
use ethereum_consensus.Prelude.{
  ℕ, Bool, not, ◌&&◌, ◌||◌, [], replicate, ltb, ◌-◌, ◌==◌, wrapping_add, wrapping_mul,
}
use ethereum_consensus.Prelude.Bytes.{bytes_eq}
use ethereum_consensus.Types.{Root, Slot, default_root}
use ethereum_consensus.Types.Bellatrix.{
  BeaconState, BeaconBlockBody, ExecutionPayload, ExecutionPayloadHeader, payload_header_eq,
  payload_eq,
}
use ethereum_consensus.Errors.{
  invalid_operation_error, execution_payload_operation, invalid_parent_hash, invalid_prev_randao,
  invalid_timestamp, invalid_block_hash, invalid_payload, underflow, execution_engine,
}
use ethereum_consensus.Outcome
use ethereum_consensus.Outcome.{Outcome, ok, fail_if}
use ethereum_consensus.Action.{StateAction, read, gets, lift, modify, guard_not, ◌>>=◌, ◌>>◌}
use ethereum_consensus.Env.{Env, transactions_object}
use ethereum_consensus.Bellatrix.Spec.{get_current_epoch, get_randao_mix}

abbrev pub ExecutionEngine : Type 0
ExecutionEngine = ExecutionPayload → Outcome (Unit {0})

abbrev genesis_slot : Slot
genesis_slot = 0

unfoldable pub is_valid_block_hash : (execution_is_valid : Bool) → ExecutionEngine
is_valid_block_hash execution_is_valid payload =
    fail_if (not execution_is_valid) (execution_engine invalid_block_hash)

unfoldable pub notify_new_payload : (execution_is_valid : Bool) → ExecutionEngine
notify_new_payload execution_is_valid payload =
    fail_if (not execution_is_valid) (execution_engine invalid_payload)

-- The method of the default engine, whose one field is the argument.
unfoldable pub verify_and_notify_new_payload : (execution_is_valid : Bool) → ExecutionEngine
verify_and_notify_new_payload execution_is_valid payload =
    Outcome.◌>>=◌ (is_valid_block_hash execution_is_valid payload)
      λ u. notify_new_payload execution_is_valid payload

unfoldable pub header_of_payload : ExecutionPayload → Root → ExecutionPayloadHeader
header_of_payload payload transactions_root = record {
  parent_hash = payload.parent_hash;
  fee_recipient = payload.fee_recipient;
  state_root = payload.state_root;
  receipts_root = payload.receipts_root;
  logs_bloom = payload.logs_bloom;
  prev_randao = payload.prev_randao;
  block_number = payload.block_number;
  gas_limit = payload.gas_limit;
  gas_used = payload.gas_used;
  timestamp = payload.timestamp;
  extra_data = payload.extra_data;
  base_fee_per_gas = payload.base_fee_per_gas;
  block_hash = payload.block_hash;
  transactions_root = transactions_root;
}

unfoldable pub with_payload_header : ExecutionPayloadHeader → BeaconState → BeaconState
with_payload_header header state = record state { latest_execution_payload_header = header }

-- `slot.checked_sub(GENESIS_SLOT)`
unfoldable pub slots_since_genesis : Slot → Outcome ℕ
slots_since_genesis slot =
    Outcome.◌>>=◌ (fail_if (ltb slot genesis_slot) underflow) λ u. ok (slot - genesis_slot)

module _ (env : Env) where
  open env use {context, generics, externals}

  -- `ExecutionPayloadHeader::try_from`
  unfoldable pub try_from : ExecutionPayload → Outcome ExecutionPayloadHeader
  try_from payload =
      Outcome.◌>>=◌ (externals.hash_tree_root (transactions_object payload.transactions))
        λ transactions_root. ok (header_of_payload payload transactions_root)

  unfoldable pub default_payload : ExecutionPayload
  default_payload = record {
    parent_hash = replicate 32 0;
    fee_recipient = replicate 20 0;
    state_root = replicate 32 0;
    receipts_root = replicate 32 0;
    logs_bloom = replicate generics.bytes_per_logs_bloom 0;
    prev_randao = replicate 32 0;
    block_number = 0;
    gas_limit = 0;
    gas_used = 0;
    timestamp = 0;
    extra_data = [];
    base_fee_per_gas = 0;
    block_hash = replicate 32 0;
    transactions = [];
  }

  unfoldable pub default_payload_header : ExecutionPayloadHeader
  default_payload_header = header_of_payload default_payload default_root

  unfoldable pub is_merge_transition_complete : BeaconState → Bool
  is_merge_transition_complete state =
      not (payload_header_eq state.latest_execution_payload_header default_payload_header)

  unfoldable pub is_merge_transition_block : BeaconState → BeaconBlockBody → Bool
  is_merge_transition_block state body =
      not (is_merge_transition_complete state)
      && not (payload_eq body.execution_payload default_payload)

  unfoldable pub is_execution_enabled : BeaconState → BeaconBlockBody → Bool
  is_execution_enabled state body =
      is_merge_transition_block state body || is_merge_transition_complete state

  unfoldable pub compute_timestamp_at_slot : BeaconState → Slot → Outcome ℕ
  compute_timestamp_at_slot state slot = Outcome.◌>>=◌ (slots_since_genesis slot) λ slots.
      ok (wrapping_add state.common.genesis_time (wrapping_mul slots context.seconds_per_slot))

  unfoldable pub process_execution_payload :
      ExecutionPayload → ExecutionEngine → StateAction BeaconState (Unit {0})
  process_execution_payload payload engine = do
    latest ← gets (λ state. state.latest_execution_payload_header.block_hash)
    merged ← gets is_merge_transition_complete
    guard_not (merged && not (bytes_eq payload.parent_hash latest)) (
        invalid_operation_error
          (execution_payload_operation (invalid_parent_hash payload.parent_hash latest)))
    current_epoch ← read (get_current_epoch env)
    mix ← read (get_randao_mix env current_epoch)
    guard_not (not (bytes_eq payload.prev_randao mix)) (
        invalid_operation_error
          (execution_payload_operation (invalid_prev_randao payload.prev_randao mix)))
    timestamp ← read (λ state. compute_timestamp_at_slot state state.common.slot)
    guard_not (not (payload.timestamp == timestamp)) (
        invalid_operation_error
          (execution_payload_operation (invalid_timestamp payload.timestamp timestamp)))
    lift (engine payload)
    root ← lift (externals.hash_tree_root (transactions_object payload.transactions))
    modify (with_payload_header (header_of_payload payload root))
