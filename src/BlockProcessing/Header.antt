-- ===== src/BlockProcessing/Header.antt =====
-- ethereum-consensus/src/phase0/block_processing.rs: `process_block_header`.
pub mod Accepted
pub mod Shape
use ethereum_consensus.Prelude.{not, leb, ◌==◌}
use ethereum_consensus.Prelude.Bytes.{bytes_eq}
use ethereum_consensus.Types.{Root, BeaconBlock, BeaconBlockHeader, BeaconState, default_root}
use ethereum_consensus.Errors.{
  invalid_header_error, state_slot_mismatch, older_than_latest_block_header,
  proposer_index_mismatch, parent_block_root_mismatch, proposer_slashed,
}
use ethereum_consensus.Outcome.{index}
use ethereum_consensus.Action.{Action, read, gets, lift, modify, guard_not, ◌>>=◌, ◌>>◌}
use ethereum_consensus.Env.{Env, header_object, body_object}
use ethereum_consensus.Helpers.Committees.{get_beacon_proposer_index}

-- The header of a block whose state root is not known yet.
unfoldable pub header_of : BeaconBlock → Root → BeaconBlockHeader
header_of block body_root = record {
  slot = block.slot;
  proposer_index = block.proposer_index;
  parent_root = block.parent_root;
  state_root = default_root;
  body_root = body_root;
}

unfoldable pub with_header : BeaconBlockHeader → BeaconState → BeaconState
with_header header state = record state { latest_block_header = header }

module _ (env : Env) where
  open env use {externals}

  unfoldable pub process_block_header : BeaconBlock → Action (Unit {0})
  process_block_header block = do
    slot ← gets (λ state. state.slot)
    guard_not (not (block.slot == slot))
        (invalid_header_error (state_slot_mismatch slot block.slot))
    latest ← gets (λ state. state.latest_block_header)
    guard_not (leb block.slot latest.slot)
        (invalid_header_error (older_than_latest_block_header block.slot latest.slot))
    proposer_index ← read (get_beacon_proposer_index env)
    guard_not (not (block.proposer_index == proposer_index))
        (invalid_header_error (proposer_index_mismatch block.proposer_index proposer_index))
    expected ← lift (externals.hash_tree_root (header_object latest))
    guard_not (not (bytes_eq block.parent_root expected))
        (invalid_header_error (parent_block_root_mismatch expected block.parent_root))
    body_root ← lift (externals.hash_tree_root (body_object block.body))
    modify (with_header (header_of block body_root))
    proposer ← read (λ state. index state.validators block.proposer_index)
    guard_not proposer.slashed (invalid_header_error (proposer_slashed proposer_index))
