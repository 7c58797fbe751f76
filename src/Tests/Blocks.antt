-- ===== src/Tests/Blocks.antt =====
-- The theorems about the operations of a block at concrete inputs.
use ethereum_consensus.Prelude.{◌+◌, true, ◌≡◌, ◌↔◌, refl, arith, [], ◌∷◌, some, replicate}
use ethereum_consensus.Types.{
  Root, default_root, deposit_contract_tree_depth, Domain, Validator, BeaconState, voluntary_exit,
}
use ethereum_consensus.Errors.{
  Error, invalid_operation_error, invalid_header_error, older_than_latest_block_header, not_timely,
}
use ethereum_consensus.Errors as Errors
use ethereum_consensus.Outcome.{ok, err}
use ethereum_consensus.Env.{voluntary_exit_object, deposit_data_object}
use ethereum_consensus.Helpers.Epochs.{get_current_epoch}
use ethereum_consensus.Helpers.Domains.{get_domain, verify_signed_data}
use ethereum_consensus.BlockProcessing.Attestations.{process_attestation}
use ethereum_consensus.BlockProcessing.Attestations.Accepted.{
  Attested, process_attestation-atomic, process_attestation-accepted,
}
use ethereum_consensus.BlockProcessing.Header.{process_block_header}
use ethereum_consensus.BlockProcessing.Header.Accepted.{
  HeaderAccepted, process_block_header-accepted, process_block_header-once,
}
use ethereum_consensus.BlockProcessing.Slashings.{process_proposer_slashing}
use ethereum_consensus.BlockProcessing.Slashings.Accepted.{
  ProposerSlashed, process_proposer_slashing-accepted,
}
use ethereum_consensus.BlockProcessing.Deposits.{process_deposit}
use ethereum_consensus.BlockProcessing.Deposits.Accepted.{Deposited, process_deposit-accepted}
use ethereum_consensus.BlockProcessing.Exits.{process_voluntary_exit}
use ethereum_consensus.BlockProcessing.Exits.Accepted.{
  Exited, IsValidExit, process_voluntary_exit-accepted, process_voluntary_exit_iff,
}
use ethereum_consensus.Tests.Run.{run}
use ethereum_consensus.Tests.Samples.{
  env, double_proposal, validator, state_at, attestation, exit, block, deposit, externals,
}

abbrev after_attestation : BeaconState
after_attestation = (process_attestation env (attestation 1) (state_at 2)).1

process_attestation_ok : (process_attestation env (attestation 1) (state_at 2)).0 ≡ ok tt
unfolding run
process_attestation_ok = refl

process_attestation-accepted_example : Attested env (attestation 1) (state_at 2) after_attestation
process_attestation-accepted_example =
    process_attestation-accepted env (attestation 1) (state_at 2) after_attestation
      (λ i. (process_attestation_ok i, after_attestation))

abbrev too_early : Error
too_early = invalid_operation_error (Errors.attestation (not_timely 2 2 6 3))

process_attestation_err : (process_attestation env (attestation 2) (state_at 2)).0 ≡ err too_early
unfolding run
process_attestation_err = refl

process_attestation-atomic_example :
    (process_attestation env (attestation 2) (state_at 2)).1 ≡ state_at 2
process_attestation-atomic_example =
    process_attestation-atomic env (attestation 2) (state_at 2)
      (process_attestation env (attestation 2) (state_at 2)).1 too_early
      (λ i. (process_attestation_err i, (process_attestation env (attestation 2) (state_at 2)).1))

-- A validator that the current epoch is the first to see active.
abbrev young : Validator
young = record (validator 3) { activation_epoch = 3 }

abbrev young_state : BeaconState
young_state = record (state_at 14) {
  validators = validator 0 ∷ validator 1 ∷ validator 2 ∷ young ∷ [];
}

abbrev domain : Domain
domain = 4 ∷ 0 ∷ 0 ∷ 0 ∷ replicate 28 1

epoch_is_3 : get_current_epoch env young_state ≡ ok 3
unfolding run
epoch_is_3 = refl

domain_is : get_domain env voluntary_exit (some 1) young_state ≡ ok domain
unfolding run
domain_is = refl

signature_is_valid :
    verify_signed_data env (voluntary_exit_object (exit 3).message) [] young.public_key domain
    ≡ ok tt
unfolding run
signature_is_valid = refl

abbrev after_exit : BeaconState
after_exit = (process_voluntary_exit env (exit 3) young_state).1

process_voluntary_exit_ok : (process_voluntary_exit env (exit 3) young_state).0 ≡ ok tt
unfolding run
process_voluntary_exit_ok = refl

process_voluntary_exit_iff_example :
    ((process_voluntary_exit env (exit 3) young_state).0 ≡ ok tt)
    ↔ IsValidExit env (exit 3) young_state
process_voluntary_exit_iff_example =
    process_voluntary_exit_iff env (exit 3) young_state (omega arith)

process_voluntary_exit-accepted_example : Exited env (exit 3) young_state after_exit
process_voluntary_exit-accepted_example =
    process_voluntary_exit-accepted env (exit 3) young_state after_exit
      (λ i. (process_voluntary_exit_ok i, after_exit))

abbrev after_header : BeaconState
after_header = (process_block_header env (block 2 0) (state_at 2)).1

process_block_header_ok : (process_block_header env (block 2 0) (state_at 2)).0 ≡ ok tt
unfolding run
process_block_header_ok = refl

process_block_header-accepted_example : HeaderAccepted env (block 2 0) (state_at 2) after_header
process_block_header-accepted_example =
    process_block_header-accepted env (block 2 0) (state_at 2) after_header
      (λ i. (process_block_header_ok i, after_header))

process_block_header-once_example :
    process_block_header env (block 2 3) after_header
    ≡ (err (invalid_header_error (older_than_latest_block_header 2 2)), after_header)
process_block_header-once_example =
    process_block_header-once env (block 2 0) (block 2 3) (state_at 2) after_header
      (λ i. (process_block_header_ok i, after_header)) refl

abbrev after_deposit : BeaconState
after_deposit = (process_deposit env (deposit 9) (state_at 2)).1

process_deposit_ok : (process_deposit env (deposit 9) (state_at 2)).0 ≡ ok tt
unfolding run
process_deposit_ok = refl

process_deposit-accepted_example :
    (leaf : Root) × (externals.hash_tree_root (deposit_data_object (deposit 9).deposit_data)
      ≡ ok leaf)
    × (externals.is_valid_merkle_branch leaf [] (deposit_contract_tree_depth + 1) 4 default_root
        ≡ true)
    × Deposited env (deposit 9) (state_at 2) after_deposit
process_deposit-accepted_example =
    process_deposit-accepted env (deposit 9) (state_at 2) after_deposit
      (λ i. (process_deposit_ok i, after_deposit))

abbrev after_slashing : BeaconState
after_slashing = (process_proposer_slashing env double_proposal (state_at 2)).1

process_proposer_slashing_ok :
    (process_proposer_slashing env double_proposal (state_at 2)).0 ≡ ok tt
unfolding run
process_proposer_slashing_ok = refl

process_proposer_slashing-accepted_example :
    ProposerSlashed env double_proposal (state_at 2) after_slashing
process_proposer_slashing-accepted_example =
    process_proposer_slashing-accepted env double_proposal (state_at 2) after_slashing
      (λ i. (process_proposer_slashing_ok i, after_slashing))
