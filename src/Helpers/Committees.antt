-- ===== src/Helpers/Committees.antt =====
-- ethereum-consensus/src/phase0/helpers.rs: committees, and the choice of the proposer.
pub mod Proposer
pub mod Rounds
use ethereum_consensus.Prelude.{
  ℕ, zero, suc, ◌-◌, ◌/◌, ◌%◌, Bool, List, [], ◌∷◌, ◌++◌, length, is_empty, leb, ltb, if◌then◌else◌,
  wrapping_add, wrapping_mul,
}
use ethereum_consensus.Prelude.Bytes.{Bytes, to_le_bytes}
use ethereum_consensus.Types.{
  Slot, CommitteeIndex, ValidatorIndex, BeaconState, beacon_attester, beacon_proposer,
}
use ethereum_consensus.Errors.{collection_cannot_be_empty}
use ethereum_consensus.Outcome.{
  Outcome, ok, fault, panic, out_of_fuel, fail_if, div, rem, index, ◌>>=◌, ◌>>◌,
}
use ethereum_consensus.Env.{Env}
use ethereum_consensus.Helpers.Epochs.{compute_epoch_at_slot, get_current_epoch}
use ethereum_consensus.Helpers.Accessors.{
  get_active_validator_indices, get_seed, get_committee_count_per_slot,
}
use ethereum_consensus.Helpers.Shuffling.{compute_shuffled_index}

module _ (env : Env) where
  open env use {context, externals}

  -- The shuffled members at the positions from `i` on, `n` of them.
  unfoldable pub committee_members :
      List ValidatorIndex → Bytes → ℕ → ℕ → Outcome (List ValidatorIndex)
  committee_members indices seed zero i = ok []
  committee_members indices seed (suc n) i = do
    shuffled ← compute_shuffled_index env seed (length indices) i
    member ← index indices shuffled
    rest ← committee_members indices seed n (suc i)
    ok (member ∷ rest)

  -- `vec![0; end - start]` panics where the difference wraps around.
  unfoldable pub compute_committee :
      List ValidatorIndex → Bytes → ℕ → ℕ → Outcome (List ValidatorIndex)
  compute_committee indices seed committee_index count = do
    start ← div (wrapping_mul (length indices) committee_index) count
    end ← div (wrapping_mul (length indices) (wrapping_add committee_index 1)) count
    if ltb end start then fault panic else committee_members indices seed (end - start) start

  unfoldable pub get_beacon_committee :
      Slot → CommitteeIndex → BeaconState → Outcome (List ValidatorIndex)
  get_beacon_committee slot committee_index state = do
    epoch ← compute_epoch_at_slot env slot
    committees_per_slot ← get_committee_count_per_slot env epoch state
    let indices = get_active_validator_indices epoch state
    seed ← get_seed env epoch beacon_attester state
    slot_in_epoch ← rem slot context.slots_per_epoch
    let i = wrapping_add (wrapping_mul slot_in_epoch committees_per_slot) committee_index
    let count = wrapping_mul committees_per_slot context.slots_per_epoch
    compute_committee indices seed i count

  -- The candidate of round `i`, and whether the loop takes it.
  unfoldable pub candidate_at :
      List ValidatorIndex → Bytes → ℕ → BeaconState → Outcome ValidatorIndex
  candidate_at indices seed i state = do
    position ← rem i (length indices)
    shuffled ← compute_shuffled_index env seed (length indices) position
    index indices shuffled

  unfoldable pub is_accepted : ValidatorIndex → Bytes → ℕ → BeaconState → Outcome Bool
  is_accepted candidate seed i state = do
    random_byte ← index (externals.hash (seed ++ to_le_bytes 8 (i / 32))) (i % 32)
    validator ← index state.validators candidate
    ok (
        leb (wrapping_mul context.max_effective_balance random_byte)
          (wrapping_mul validator.effective_balance 255))

  -- The `loop` from round `i`.
  unfoldable pub proposer_loop :
      ℕ → List ValidatorIndex → Bytes → ℕ → BeaconState → Outcome ValidatorIndex
  proposer_loop zero indices seed i state = fault out_of_fuel
  proposer_loop (suc fuel) indices seed i state = do
    candidate ← candidate_at indices seed i state
    accepted ← is_accepted candidate seed i state
    let rest = proposer_loop fuel indices seed (wrapping_add i 1) state
    if accepted then ok candidate else rest

  unfoldable pub compute_proposer_index :
      List ValidatorIndex → Bytes → BeaconState → Outcome ValidatorIndex
  compute_proposer_index indices seed state = do
    fail_if (is_empty indices) collection_cannot_be_empty
    proposer_loop env.proposer_fuel indices seed 0 state

  unfoldable pub get_beacon_proposer_index : BeaconState → Outcome ValidatorIndex
  get_beacon_proposer_index state = do
    epoch ← get_current_epoch env state
    epoch_seed ← get_seed env epoch beacon_proposer state
    let seed = externals.hash (epoch_seed ++ to_le_bytes 8 state.slot)
    compute_proposer_index (get_active_validator_indices epoch state) seed state
