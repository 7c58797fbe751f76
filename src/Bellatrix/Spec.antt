-- ===== src/Bellatrix/Spec.antt =====
-- ethereum-consensus/src/bellatrix/spec/mod.rs: the accessors that the code of bellatrix calls.
use ethereum_consensus.Prelude.{Option}
use ethereum_consensus.Prelude.Bytes.{Bytes}
use ethereum_consensus.Types.{Epoch, Domain, DomainType, ValidatorIndex}
use ethereum_consensus.Types.Bellatrix.{BeaconState}
use ethereum_consensus.Outcome.{Outcome}
use ethereum_consensus.Env.{Env}
use ethereum_consensus.Helpers.Accessors as Accessors
use ethereum_consensus.Altair.Shared.{shared}
use ethereum_consensus.Altair.Spec as Altair

module _ (env : Env) where
  unfoldable pub get_current_epoch : BeaconState → Outcome Epoch
  get_current_epoch state = Altair.get_current_epoch env state.common

  unfoldable pub get_randao_mix : Epoch → BeaconState → Outcome Bytes
  get_randao_mix epoch state = Accessors.get_randao_mix env epoch (shared state.common)

  unfoldable pub get_beacon_proposer_index : BeaconState → Outcome ValidatorIndex
  get_beacon_proposer_index state = Altair.get_beacon_proposer_index env state.common

  unfoldable pub get_domain : DomainType → Option Epoch → BeaconState → Outcome Domain
  get_domain domain_type epoch state = Altair.get_domain env domain_type epoch state.common
