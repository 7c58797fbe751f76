-- ===== src/Tests/Bellatrix.antt =====
-- The theorems about bellatrix at concrete inputs: the block of the merge.
use ethereum_consensus.Prelude.{ℕ, ◌≡◌, refl, arith, true, false, [], ◌∷◌, replicate}
use ethereum_consensus.Types.{disabled}
use ethereum_consensus.Types.Bellatrix.{BeaconState, ExecutionPayload, SignedBeaconBlock}
use ethereum_consensus.Outcome.{ok}
use ethereum_consensus.Shape.{shape_of}
use ethereum_consensus.Altair.Shared.{shared}
use ethereum_consensus.Bellatrix.InStep.{IsInStep}
use ethereum_consensus.Bellatrix.Payload.{
  default_payload_header, verify_and_notify_new_payload, process_execution_payload,
}
use ethereum_consensus.Bellatrix.Payload.Accepted.{
  PayloadAccepted, process_execution_payload-accepted,
}
use ethereum_consensus.Bellatrix.Transition.{state_transition}
use ethereum_consensus.Bellatrix.Transition.Shape.{state_transition-IsInStep}
use ethereum_consensus.Tests.Run.{run}
use ethereum_consensus.Tests.AltairRun.{altair_run}
use ethereum_consensus.Tests.BellatrixRun.{bellatrix_run}
use ethereum_consensus.Tests.Samples.{env, eth1}
use ethereum_consensus.Tests.Altair.{altair_state, altair_state-IsConsistent}

abbrev bellatrix_state : BeaconState
bellatrix_state = record {
  common = altair_state;
  latest_execution_payload_header = default_payload_header env;
}

-- The first payload, for the slot that starts at the time.
abbrev payload : ℕ → ExecutionPayload
payload timestamp = record {
  parent_hash = replicate 32 9;
  fee_recipient = replicate 20 1;
  state_root = replicate 32 1;
  receipts_root = replicate 32 1;
  logs_bloom = replicate 4 0;
  prev_randao = replicate 32 2;
  block_number = 1;
  gas_limit = 30;
  gas_used = 20;
  timestamp = timestamp;
  extra_data = [];
  base_fee_per_gas = 7;
  block_hash = replicate 32 8;
  transactions = (1 ∷ 2 ∷ []) ∷ [];
}

abbrev merge_block : SignedBeaconBlock
merge_block = record {
  message = record {
    slot = 6;
    proposer_index = 0;
    parent_root = replicate 32 1;
    state_root = replicate 32 1;
    body = record {
      randao_reveal = [];
      eth1_data = eth1;
      graffiti = [];
      proposer_slashings = [];
      attester_slashings = [];
      attestations = [];
      deposits = [];
      voluntary_exits = [];
      sync_aggregate = record {
        sync_committee_bits = true ∷ false ∷ [];
        sync_committee_signature = [];
      };
      execution_payload = payload 72;
    };
  };
  signature = [];
}

abbrev after_payload : BeaconState
after_payload =
    (process_execution_payload env (payload 60) (verify_and_notify_new_payload true)
      bellatrix_state).1

payload_ok :
    (process_execution_payload env
      (payload 60)
      (verify_and_notify_new_payload true)
      bellatrix_state).0
    ≡ ok tt
unfolding run altair_run bellatrix_run
payload_ok = refl

process_execution_payload-accepted_example :
    PayloadAccepted env
      (payload 60)
      (verify_and_notify_new_payload true)
      bellatrix_state
      after_payload
process_execution_payload-accepted_example =
    process_execution_payload-accepted env (payload 60) (verify_and_notify_new_payload true)
      bellatrix_state after_payload (λ i. (payload_ok i, after_payload))

abbrev after_merge : BeaconState
after_merge =
    (state_transition env merge_block (verify_and_notify_new_payload true) disabled
      bellatrix_state).1

merge_ok :
    (state_transition env merge_block
      (verify_and_notify_new_payload true)
      disabled
      bellatrix_state).0
    ≡ ok tt
unfolding run altair_run bellatrix_run
merge_ok = refl

state_transition-IsInStep_example :
    IsInStep (record (shape_of (shared altair_state)) { slot = 6 }) after_merge
state_transition-IsInStep_example =
    state_transition-IsInStep env merge_block (verify_and_notify_new_payload true) disabled
      (shape_of (shared altair_state)) bellatrix_state after_merge altair_state-IsConsistent
      (omega arith) (λ i. (merge_ok i, after_merge))
