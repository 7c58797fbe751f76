-- ===== src/RegistrySize/Blocks.antt =====
-- Parts of the processing of a block that leave the number of validators as it is.
use ethereum_consensus.Prelude.{ℕ, Bool, set, arith}
use ethereum_consensus.Types.{
  Root, Domain, Epoch, Validator, Attestation, BeaconBlockHeader, BeaconState,
  SignedBeaconBlockHeader,
}
use ethereum_consensus.Action.Keeps.{Keeps, Keeps-modify, keeps_rules}
use ethereum_consensus.Env.{Env}
use ethereum_consensus.BlockProcessing.Header.{with_header}
use ethereum_consensus.BlockProcessing.Slashings.{verify_header}
use ethereum_consensus.BlockProcessing.Attestations.{check_timing}
use ethereum_consensus.BlockProcessing.Deposits.{count_deposit}
use ethereum_consensus.Transition.{write_state_root, write_block_root, fill_state_root}
use ethereum_consensus.RegistrySize.{HasSize}

module _ {n : ℕ} where
  pub with_header-HasSize :
      (header : BeaconBlockHeader) (s : BeaconState)
      → HasSize n s
      → HasSize n (with_header header s)
  unfolding with_header
  with_header-HasSize header s h = ground arith

  pub count_deposit-HasSize : (s : BeaconState) → HasSize n s → HasSize n (count_deposit s)
  unfolding count_deposit
  count_deposit-HasSize s h = ground arith

  set_state_root-HasSize :
      (i : ℕ) (root : Root) (s : BeaconState)
      → HasSize n s
      → HasSize n (record s { state_roots = set s.state_roots i root })
  set_state_root-HasSize i root s h = ground arith

  set_block_root-HasSize :
      (i : ℕ) (root : Root) (s : BeaconState)
      → HasSize n s
      → HasSize n (record s { block_roots = set s.block_roots i root })
  set_block_root-HasSize i root s h = ground arith

  pub write_state_root-HasSize : (i : ℕ) (root : Root) → Keeps (HasSize n) (write_state_root i root)
  unfolding write_state_root
  write_state_root-HasSize i root = search (keeps_rules, Keeps-modify, set_state_root-HasSize)

  pub write_block_root-HasSize : (i : ℕ) (root : Root) → Keeps (HasSize n) (write_block_root i root)
  unfolding write_block_root
  write_block_root-HasSize i root = search (keeps_rules, Keeps-modify, set_block_root-HasSize)

  pub fill_state_root-HasSize :
      (root : Root) (s : BeaconState) → HasSize n s → HasSize n (fill_state_root root s)
  unfolding fill_state_root
  fill_state_root-HasSize root s h =
      ground (arith, with_header-HasSize (record s.latest_block_header { state_root = root }) s h)

module _ (env : Env) {n : ℕ} where
  pub verify_header-HasSize :
      (v : Validator) (domain : Domain) (header : SignedBeaconBlockHeader)
      → Keeps (HasSize n) (verify_header env v domain header)
  unfolding verify_header
  verify_header-HasSize v domain header = search keeps_rules depth 9

  pub check_timing-HasSize :
      (a : Attestation) (epoch : Epoch) (valid : Bool)
      → Keeps (HasSize n) (check_timing env a epoch valid)
  unfolding check_timing
  check_timing-HasSize a epoch valid = search keeps_rules depth 12
