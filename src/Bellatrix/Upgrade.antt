-- ===== src/Bellatrix/Upgrade.antt =====
-- ethereum-consensus/src/bellatrix/fork.rs: the upgrade of an altair state.
use ethereum_consensus.Types.{Epoch}
use ethereum_consensus.Types.Altair as Altair
use ethereum_consensus.Types.Bellatrix.{BeaconState}
use ethereum_consensus.Outcome
use ethereum_consensus.Outcome.{Outcome, ok}
use ethereum_consensus.Env.{Env}
use ethereum_consensus.Altair.Spec.{get_current_epoch}
use ethereum_consensus.Bellatrix.Payload.{default_payload_header}

module _ (env : Env) where
  open env use {context}

  -- All other fields are copied.
  unfoldable pub upgraded_state : Epoch → Altair.BeaconState → BeaconState
  upgraded_state epoch state = record {
    common = record state {
      fork = record {
        previous_version = state.fork.current_version;
        current_version = context.bellatrix_fork_version;
        epoch = epoch;
      };
    };
    latest_execution_payload_header = default_payload_header env;
  }

  unfoldable pub upgrade_to_bellatrix : Altair.BeaconState → Outcome BeaconState
  upgrade_to_bellatrix state =
      Outcome.◌>>=◌ (get_current_epoch env state) λ epoch. ok (upgraded_state epoch state)
