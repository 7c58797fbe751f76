-- ===== src/Altair/Shared.antt =====
-- The part of the altair state that the phase0 state has too. The generated module
-- ethereum-consensus/src/altair/spec/mod.rs repeats functions of phase0, with the state of altair
-- in their signatures: such a function is the one of phase0, on the shared part of the state.
use ethereum_consensus.Prelude.{[]}
use ethereum_consensus.Types.{BeaconState, BeaconBlockBody}
use ethereum_consensus.Types.Altair as Altair
use ethereum_consensus.Outcome.{Outcome}
use ethereum_consensus.Action.{Action, StateAction, read}

-- None of the functions that altair takes from phase0 reads the pending attestations.
unfoldable pub shared : Altair.BeaconState → BeaconState
shared state = record {
  genesis_time = state.genesis_time;
  genesis_validators_root = state.genesis_validators_root;
  slot = state.slot;
  fork = state.fork;
  latest_block_header = state.latest_block_header;
  block_roots = state.block_roots;
  state_roots = state.state_roots;
  historical_roots = state.historical_roots;
  eth1_data = state.eth1_data;
  eth1_data_votes = state.eth1_data_votes;
  eth1_deposit_index = state.eth1_deposit_index;
  validators = state.validators;
  balances = state.balances;
  randao_mixes = state.randao_mixes;
  slashings = state.slashings;
  previous_epoch_attestations = [];
  current_epoch_attestations = [];
  justification_bits = state.justification_bits;
  previous_justified_checkpoint = state.previous_justified_checkpoint;
  current_justified_checkpoint = state.current_justified_checkpoint;
  finalized_checkpoint = state.finalized_checkpoint;
}

unfoldable pub with_shared : BeaconState → Altair.BeaconState → Altair.BeaconState
with_shared part state = record state {
  genesis_time = part.genesis_time;
  genesis_validators_root = part.genesis_validators_root;
  slot = part.slot;
  fork = part.fork;
  latest_block_header = part.latest_block_header;
  block_roots = part.block_roots;
  state_roots = part.state_roots;
  historical_roots = part.historical_roots;
  eth1_data = part.eth1_data;
  eth1_data_votes = part.eth1_data_votes;
  eth1_deposit_index = part.eth1_deposit_index;
  validators = part.validators;
  balances = part.balances;
  randao_mixes = part.randao_mixes;
  slashings = part.slashings;
  justification_bits = part.justification_bits;
  previous_justified_checkpoint = part.previous_justified_checkpoint;
  current_justified_checkpoint = part.current_justified_checkpoint;
  finalized_checkpoint = part.finalized_checkpoint;
}

-- A function of phase0 that changes the state, on the state of altair.
unfoldable pub on_shared : {A : Type 0} → Action A → StateAction Altair.BeaconState A
on_shared action state =
    let (result, part) = action (shared state) in (result, with_shared part state)

unfoldable pub read_shared :
    {A : Type 0} → (BeaconState → Outcome A) → StateAction Altair.BeaconState A
unfolding read
read_shared f = read (λ state. f (shared state))

-- The body of a block, less the sync aggregate.
unfoldable pub shared_body : Altair.BeaconBlockBody → BeaconBlockBody
shared_body body = record {
  randao_reveal = body.randao_reveal;
  eth1_data = body.eth1_data;
  graffiti = body.graffiti;
  proposer_slashings = body.proposer_slashings;
  attester_slashings = body.attester_slashings;
  attestations = body.attestations;
  deposits = body.deposits;
  voluntary_exits = body.voluntary_exits;
}
