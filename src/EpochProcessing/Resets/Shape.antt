-- ===== src/EpochProcessing/Resets/Shape.antt =====
-- The resets and the rotations keep the shape of the state.
use ethereum_consensus.Prelude.{ℕ, set, length-set, arith}
use ethereum_consensus.Prelude.Bytes.{Bytes}
use ethereum_consensus.Types.{Root, BeaconState}
use ethereum_consensus.Action.Keeps.{Keeps, Keeps-modify, keeps_rules}
use ethereum_consensus.Env.{Env}
use ethereum_consensus.Shape.{Shape, HasShape}
use ethereum_consensus.Helpers.Exits.Shape.{set_slashing-HasShape}
use ethereum_consensus.EpochProcessing.Resets.{
  clear_votes, write_mix, clear_slashing, push_historical_root,
  process_participation_record_updates, process_eth1_data_reset, process_slashings_reset,
  process_randao_mixes_reset, process_historical_roots_update,
}

module _ {k : Shape} where
  set_mix-HasShape :
      (i : ℕ) (mix : Bytes) (s : BeaconState)
      → HasShape k s
      → HasShape k (record s { randao_mixes = set s.randao_mixes i mix })
  set_mix-HasShape i mix s h = ground (arith, length-set s.randao_mixes i mix)

  pub write_mix-HasShape : (i : ℕ) (mix : Bytes) → Keeps (HasShape k) (write_mix i mix)
  unfolding write_mix
  write_mix-HasShape i mix = search (keeps_rules, Keeps-modify, set_mix-HasShape)

  clear_slashing-HasShape : (i : ℕ) → Keeps (HasShape k) (clear_slashing i)
  unfolding clear_slashing
  clear_slashing-HasShape i = search (keeps_rules, Keeps-modify, set_slashing-HasShape)

  clear_votes-HasShape : (s : BeaconState) → HasShape k s → HasShape k (clear_votes s)
  unfolding clear_votes
  clear_votes-HasShape s h = ground arith

  push_historical_root-HasShape :
      (root : Root) (s : BeaconState) → HasShape k s → HasShape k (push_historical_root root s)
  unfolding push_historical_root
  push_historical_root-HasShape root s h = ground arith

  pub process_participation_record_updates-HasShape :
      Keeps (HasShape k) process_participation_record_updates
  unfolding process_participation_record_updates
  process_participation_record_updates-HasShape = Keeps-modify _ (λ s h. ground arith)

module _ (env : Env) {k : Shape} where
  pub process_eth1_data_reset-HasShape : Keeps (HasShape k) (process_eth1_data_reset env)
  unfolding process_eth1_data_reset
  process_eth1_data_reset-HasShape =
      search (keeps_rules, Keeps-modify, clear_votes-HasShape) depth 9

  pub process_slashings_reset-HasShape : Keeps (HasShape k) (process_slashings_reset env)
  unfolding process_slashings_reset
  process_slashings_reset-HasShape = search (keeps_rules, clear_slashing-HasShape)

  pub process_randao_mixes_reset-HasShape : Keeps (HasShape k) (process_randao_mixes_reset env)
  unfolding process_randao_mixes_reset
  process_randao_mixes_reset-HasShape = search (keeps_rules, write_mix-HasShape)

  pub process_historical_roots_update-HasShape :
      Keeps (HasShape k) (process_historical_roots_update env)
  unfolding process_historical_roots_update
  process_historical_roots_update-HasShape =
      search (keeps_rules, Keeps-modify, push_historical_root-HasShape) depth 12
