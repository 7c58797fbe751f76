-- ===== src/Bellatrix/Shared.antt =====
-- The part of the bellatrix state that the altair state has too. The generated module
-- ethereum-consensus/src/bellatrix/spec/mod.rs repeats functions of phase0 and of altair, with the
-- state of bellatrix in their signatures: such a function is that of altair, on this part.
use ethereum_consensus.Types.Altair as Altair
use ethereum_consensus.Types.Bellatrix as Bellatrix
use ethereum_consensus.Action.{StateAction}
use ethereum_consensus.Env.{Env}

-- bellatrix has its own version of each function that reads one of the three altair quotients,
-- which differs from the altair version in the quotient it names. No other function reads them.
unfoldable pub bellatrix_env : Env → Env
bellatrix_env env = record env {
  context = record env.context {
    inactivity_penalty_quotient_altair = env.context.inactivity_penalty_quotient_bellatrix;
    min_slashing_penalty_quotient_altair = env.context.min_slashing_penalty_quotient_bellatrix;
    proportional_slashing_multiplier_altair =
        env.context.proportional_slashing_multiplier_bellatrix;
  };
}

unfoldable pub with_common : Altair.BeaconState → Bellatrix.BeaconState → Bellatrix.BeaconState
with_common part state = record state { common = part }

-- A function of altair that changes the state, on the state of bellatrix.
unfoldable pub on_common :
    {A : Type 0} → StateAction Altair.BeaconState A → StateAction Bellatrix.BeaconState A
on_common action state =
    let (result, part) = action state.common in (result, with_common part state)

-- The body of a block, less the execution payload.
unfoldable pub common_body : Bellatrix.BeaconBlockBody → Altair.BeaconBlockBody
common_body body = record {
  randao_reveal = body.randao_reveal;
  eth1_data = body.eth1_data;
  graffiti = body.graffiti;
  proposer_slashings = body.proposer_slashings;
  attester_slashings = body.attester_slashings;
  attestations = body.attestations;
  deposits = body.deposits;
  voluntary_exits = body.voluntary_exits;
  sync_aggregate = body.sync_aggregate;
}
