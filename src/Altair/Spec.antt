-- ===== src/Altair/Spec.antt =====
-- ethereum-consensus/src/altair/spec/mod.rs: the accessors of phase0, on the state of altair.
use ethereum_consensus.Prelude.{ℕ, Bool, List, Option}
use ethereum_consensus.Prelude.Bytes.{Bytes}
use ethereum_consensus.Types.{
  Root, Slot, Epoch, Gwei, Domain, DomainType, CommitteeIndex, ValidatorIndex, Attestation,
  AttestationData, IndexedAttestation,
}
use ethereum_consensus.Types.Altair.{BeaconState}
use ethereum_consensus.Outcome.{Outcome}
use ethereum_consensus.Action.{StateAction}
use ethereum_consensus.Env.{Env}
use ethereum_consensus.Helpers.Epochs as Epochs
use ethereum_consensus.Helpers.Accessors as Accessors
use ethereum_consensus.Helpers.Committees as Committees
use ethereum_consensus.Helpers.Domains as Domains
use ethereum_consensus.Helpers.Balances as Balances
use ethereum_consensus.Helpers.Attestations as Attestations
use ethereum_consensus.EpochProcessing.Rewards as Rewards
use ethereum_consensus.Altair.Shared.{shared, on_shared}

unfoldable pub get_active_validator_indices : Epoch → BeaconState → List ValidatorIndex
get_active_validator_indices epoch state =
    Accessors.get_active_validator_indices epoch (shared state)

unfoldable pub increase_balance : ValidatorIndex → Gwei → StateAction BeaconState (Unit {0})
increase_balance i delta = on_shared (Balances.increase_balance i delta)

unfoldable pub decrease_balance : ValidatorIndex → Gwei → StateAction BeaconState (Unit {0})
decrease_balance i delta = on_shared (Balances.decrease_balance i delta)

module _ (env : Env) where
  unfoldable pub get_current_epoch : BeaconState → Outcome Epoch
  get_current_epoch state = Epochs.get_current_epoch env (shared state)

  unfoldable pub get_previous_epoch : BeaconState → Outcome Epoch
  get_previous_epoch state = Epochs.get_previous_epoch env (shared state)

  unfoldable pub get_block_root : Epoch → BeaconState → Outcome Root
  get_block_root epoch state = Accessors.get_block_root env epoch (shared state)

  unfoldable pub get_block_root_at_slot : Slot → BeaconState → Outcome Root
  get_block_root_at_slot slot state = Accessors.get_block_root_at_slot env slot (shared state)

  unfoldable pub get_seed : Epoch → DomainType → BeaconState → Outcome Bytes
  get_seed epoch domain_type state = Accessors.get_seed env epoch domain_type (shared state)

  unfoldable pub get_committee_count_per_slot : Epoch → BeaconState → Outcome ℕ
  get_committee_count_per_slot epoch state =
      Accessors.get_committee_count_per_slot env epoch (shared state)

  unfoldable pub get_beacon_committee :
      Slot → CommitteeIndex → BeaconState → Outcome (List ValidatorIndex)
  get_beacon_committee slot committee_index state =
      Committees.get_beacon_committee env slot committee_index (shared state)

  unfoldable pub get_beacon_proposer_index : BeaconState → Outcome ValidatorIndex
  get_beacon_proposer_index state = Committees.get_beacon_proposer_index env (shared state)

  unfoldable pub get_total_balance : List ValidatorIndex → BeaconState → Outcome Gwei
  get_total_balance indices state = Balances.get_total_balance env indices (shared state)

  unfoldable pub get_total_active_balance : BeaconState → Outcome Gwei
  get_total_active_balance state = Balances.get_total_active_balance env (shared state)

  unfoldable pub get_eligible_validator_indices : BeaconState → Outcome (List ValidatorIndex)
  get_eligible_validator_indices state = Balances.get_eligible_validator_indices env (shared state)

  unfoldable pub get_domain : DomainType → Option Epoch → BeaconState → Outcome Domain
  get_domain domain_type epoch state = Domains.get_domain env domain_type epoch (shared state)

  unfoldable pub get_attesting_indices :
      AttestationData → List Bool → BeaconState → Outcome (List ValidatorIndex)
  get_attesting_indices d bits state = Attestations.get_attesting_indices env d bits (shared state)

  unfoldable pub get_indexed_attestation : Attestation → BeaconState → Outcome IndexedAttestation
  get_indexed_attestation a state = Attestations.get_indexed_attestation env a (shared state)

  unfoldable pub is_valid_indexed_attestation :
      IndexedAttestation → BeaconState → Outcome (Unit {0})
  is_valid_indexed_attestation a state =
      Attestations.is_valid_indexed_attestation env a (shared state)

  unfoldable pub is_in_inactivity_leak : BeaconState → Outcome Bool
  is_in_inactivity_leak state = Rewards.is_in_inactivity_leak env (shared state)
