-- ===== src/Tests/Altair.antt =====
-- The theorems about altair at concrete inputs.
use ethereum_consensus.Prelude.{
  ℕ, List, inl, inr, Bool-cases, ==_iff, ◌/◌, ◌≡◌, ◌||◌, ◌==◌, true, false, refl, arith, [], ◌∷◌,
  replicate, some, get_elem?, All, length, wrapping_add,
}
use ethereum_consensus.Types.{BeaconState, Epoch, ValidatorIndex, Validator, disabled, default_root}
use ethereum_consensus.Types.Altair as Types
use ethereum_consensus.Outcome.{ok}
use ethereum_consensus.Shape.{shape_of, HasShape-shape_of}
use ethereum_consensus.Prelude.Sets.{contains}
use ethereum_consensus.Helpers.Committees.{get_beacon_proposer_index}
use ethereum_consensus.Altair.Spec as Spec
use ethereum_consensus.Helpers.Epochs.{get_current_epoch}
use ethereum_consensus.Altair.Shared.{shared}
use ethereum_consensus.Altair.Consistent.{IsConsistent}
use ethereum_consensus.Altair.Flags.{add_flag, has_flag}
use ethereum_consensus.Altair.Flags.Laws.{has_flag-add_flag}
use ethereum_consensus.Altair.Transition.{state_transition}
use ethereum_consensus.Altair.Transition.Shape.{state_transition-IsConsistent}
use ethereum_consensus.Altair.Upgrade.{upgrade_to_altair}
use ethereum_consensus.Altair.Upgrade.Preserves.{Upgraded, upgrade_to_altair-Upgraded}
use ethereum_consensus.Altair.Slashing.{pay_whistleblower}
use ethereum_consensus.Altair.Slashing.Rewards.{pay_whistleblower-whole}
use ethereum_consensus.Altair.SyncCommittee.{get_next_sync_committee_indices}
use ethereum_consensus.Altair.SyncCommittee.Members.{
  IsActive, get_next_sync_committee_indices-IsActive,
}
use ethereum_consensus.Altair.Attestations.{participation_of, reward_attesters}
use ethereum_consensus.Altair.Attestations.Repeated.{reward_attesters-repeated}
use ethereum_consensus.Tests.Run.{run}
use ethereum_consensus.Tests.AltairRun.{altair_run}
use ethereum_consensus.Tests.Samples.{env, state_at, header, eth1, validator, checkpoint}

abbrev committee : Types.SyncCommittee
committee = record { public_keys = (1 ∷ []) ∷ (2 ∷ []) ∷ []; aggregate_public_key = [] }

-- The sample chain in altair, at the slot 5.
abbrev pub altair_state : Types.BeaconState
altair_state = record {
  genesis_time = 0;
  genesis_validators_root = default_root;
  slot = 5;
  fork = record { previous_version = []; current_version = []; epoch = 0 };
  latest_block_header = header;
  block_roots = replicate 8 (replicate 32 1);
  state_roots = replicate 8 (replicate 32 1);
  historical_roots = [];
  eth1_data = eth1;
  eth1_data_votes = [];
  eth1_deposit_index = 4;
  validators = validator 0 ∷ validator 1 ∷ validator 2 ∷ validator 3 ∷ [];
  balances = 32 ∷ 32 ∷ 32 ∷ 32 ∷ [];
  randao_mixes = replicate 4 (replicate 32 2);
  slashings = replicate 4 0;
  previous_epoch_participation = 7 ∷ 7 ∷ 7 ∷ 7 ∷ [];
  current_epoch_participation = 3 ∷ 0 ∷ 0 ∷ 0 ∷ [];
  justification_bits = record { bit_0 = false; bit_1 = false; bit_2 = false; bit_3 = false };
  previous_justified_checkpoint = checkpoint 0;
  current_justified_checkpoint = checkpoint 0;
  finalized_checkpoint = checkpoint 0;
  inactivity_scores = 0 ∷ 0 ∷ 0 ∷ 0 ∷ [];
  current_sync_committee = committee;
  next_sync_committee = committee;
}

abbrev signed_block : ℕ → Types.SignedBeaconBlock
signed_block proposer_index = record {
  message = record {
    slot = 6;
    proposer_index = proposer_index;
    parent_root = replicate 32 1;
    state_root = replicate 32 1;
    body = record {
      randao_reveal = [];
      eth1_data = eth1;
      graffiti = [];
      proposer_slashings = [];
      attester_slashings = [];
      attestations = [];
      deposits = [];
      voluntary_exits = [];
      sync_aggregate = record {
        sync_committee_bits = true ∷ false ∷ [];
        sync_committee_signature = [];
      };
    };
  };
  signature = [];
}

has_flag-add_flag_example : has_flag (add_flag 1 2) 0 ≡ (2 == 0 || has_flag 1 0)
has_flag-add_flag_example = has_flag-add_flag 1 2 0 (omega arith) (omega arith) (omega arith)

upgrade_ok : (s : Types.BeaconState) × (upgrade_to_altair env (state_at 4) ≡ ok s)
unfolding run altair_run
upgrade_ok = (_, refl)

upgrade_to_altair-Upgraded_example :
    (epoch : Epoch) × (get_current_epoch env (state_at 4) ≡ ok epoch)
    × Upgraded env epoch (state_at 4) upgrade_ok.0
upgrade_to_altair-Upgraded_example =
    upgrade_to_altair-Upgraded env (state_at 4) upgrade_ok.0 upgrade_ok.1

proposer : get_beacon_proposer_index env (shared (altair_state)) ≡ ok 0
unfolding run altair_run
proposer = refl

members_ok :
    (members : List ValidatorIndex) × (get_next_sync_committee_indices env altair_state
      ≡ ok members)
unfolding run altair_run
members_ok = (_, refl)

get_next_sync_committee_indices-IsActive_example :
    (epoch : Epoch) × (Spec.get_current_epoch env altair_state ≡ ok epoch)
    × (length members_ok.0 ≡ 2)
    × All (IsActive altair_state (wrapping_add epoch 1)) members_ok.0
get_next_sync_committee_indices-IsActive_example =
    get_next_sync_committee_indices-IsActive env altair_state members_ok.0 members_ok.1

-- All flags of the validator 0 but that of the head are set.
has_two : (f : ℕ) → contains f (0 ∷ 1 ∷ []) ≡ true → has_flag 3 f ≡ true
unfolding run altair_run
has_two f h = elim (Bool-cases (f == 0)) [
  | inl is_0 ↦ rw ((==_iff f 0).0 is_0) refl
  | inr not_0 ↦ elim (Bool-cases (f == 1)) [
    | inl is_1 ↦ rw ((==_iff f 1).0 is_1) refl
    | inr not_1 ↦ let impossible : false ≡ true = rw (not_0, not_1) at h in absurd cc
  ]
]

found_3 : get_elem? (participation_of true altair_state) 0 ≡ some 3
unfolding run altair_run
found_3 = refl

reward_attesters-repeated_example :
    reward_attesters env true (0 ∷ 1 ∷ []) (0 ∷ []) 9 altair_state ≡ (ok 9, altair_state)
reward_attesters-repeated_example =
    reward_attesters-repeated env true (0 ∷ 1 ∷ []) altair_state (0 ∷ []) 9
      ((3, found_3, has_two), tt)

abbrev after_payment : BeaconState
after_payment = (pay_whistleblower env 1 (some 2) (shared altair_state)).1

payment_ok : (pay_whistleblower env 1 (some 2) (shared altair_state)).0 ≡ ok tt
unfolding run altair_run
payment_ok = refl

balance_0 : get_elem? (shared altair_state).balances 0 ≡ some 32
unfolding run altair_run
balance_0 = refl

balance_2 : get_elem? (shared altair_state).balances 2 ≡ some 32
unfolding run altair_run
balance_2 = refl

pay_whistleblower-whole_example :
    (v : Validator) × (get_elem? (shared altair_state).validators 1 ≡ some v)
    × (get_elem? after_payment.balances 0 ≡ some 32)
    × (get_elem? after_payment.balances 2 ≡ some (wrapping_add 32 (v.effective_balance / 4)))
pay_whistleblower-whole_example =
    pay_whistleblower-whole env 1 2 0 32 32 (shared altair_state) after_payment proposer
      (omega arith) balance_0 balance_2 (omega arith) (λ i. (payment_ok i, after_payment))

abbrev after_block : Types.BeaconState
after_block = (state_transition env (signed_block 0) disabled altair_state).1

block_ok : (state_transition env (signed_block 0) disabled altair_state).0 ≡ ok tt
unfolding run altair_run
block_ok = refl

pub altair_state-IsConsistent : IsConsistent (shape_of (shared altair_state)) altair_state
unfolding run altair_run
altair_state-IsConsistent = record {
  shared_is = HasShape-shape_of (shared altair_state) refl;
  previous_is = refl;
  current_is = refl;
  scores_is = refl;
}

state_transition-IsConsistent_example :
    IsConsistent (record (shape_of (shared altair_state)) { slot = 6 }) after_block
state_transition-IsConsistent_example =
    state_transition-IsConsistent env (signed_block 0) disabled (shape_of (shared altair_state))
      altair_state after_block altair_state-IsConsistent (omega arith)
      (λ i. (block_ok i, after_block))
