-- ===== src/Bellatrix/Helpers.antt =====
-- ethereum-consensus/src/bellatrix/helpers.rs: the two functions that are those of altair but for
-- the quotients that they name.
use ethereum_consensus.Prelude.{Option}
use ethereum_consensus.Types.{ValidatorIndex}
use ethereum_consensus.Types.Bellatrix.{BeaconState}
use ethereum_consensus.Outcome.{Outcome}
use ethereum_consensus.Action.{StateAction}
use ethereum_consensus.Env.{Env}
use ethereum_consensus.EpochProcessing.Rewards.{Deltas}
use ethereum_consensus.Altair.Deltas as AltairDeltas
use ethereum_consensus.Altair.Slashing as AltairSlashing
use ethereum_consensus.Bellatrix.Shared.{bellatrix_env, on_common}

module _ (env : Env) where
  unfoldable pub get_inactivity_penalty_deltas : BeaconState → Outcome Deltas
  get_inactivity_penalty_deltas state =
      AltairDeltas.get_inactivity_penalty_deltas (bellatrix_env env) state.common

  unfoldable pub slash_validator :
      ValidatorIndex → Option ValidatorIndex → StateAction BeaconState (Unit {0})
  slash_validator slashed_index whistleblower =
      on_common (AltairSlashing.slash_validator (bellatrix_env env) slashed_index whistleblower)
