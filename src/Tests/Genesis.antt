-- ===== src/Tests/Genesis.antt =====
-- The theorems about the state at genesis, the registry and the rounds of the proposer.
use ethereum_consensus.Prelude.{◌≡◌, refl, [], ◌∷◌, arith, replicate}
use ethereum_consensus.Types.{ValidatorIndex, BeaconState}
use ethereum_consensus.Outcome.{ok}
use ethereum_consensus.Shape.{HasShape}
use ethereum_consensus.Helpers.Accessors.{get_active_validator_indices}
use ethereum_consensus.Helpers.Committees.{get_beacon_proposer_index}
use ethereum_consensus.Helpers.Committees.Rounds.{get_beacon_proposer_index-returns}
use ethereum_consensus.Genesis.{initialize_beacon_state_from_eth1}
use ethereum_consensus.Genesis.Shape.{genesis_shape, initialize_beacon_state-HasShape}
use ethereum_consensus.Tests.Run.{run}
use ethereum_consensus.Tests.Samples.{env, state_at, deposit, validator, digest-IsSha256}

genesis_ok :
    (s : BeaconState) × (initialize_beacon_state_from_eth1 env
        (replicate 32 7)
        5
        (deposit 0 ∷ deposit 1 ∷ [])
      ≡ ok s)
unfolding run
genesis_ok = (_, refl)

initialize_beacon_state-HasShape_example : HasShape (genesis_shape env) genesis_ok.0
initialize_beacon_state-HasShape_example =
    initialize_beacon_state-HasShape env (replicate 32 7) 5 (deposit 0 ∷ deposit 1 ∷ [])
      genesis_ok.0 genesis_ok.1

active_is : get_active_validator_indices 0 (state_at 2) ≡ 0 ∷ 1 ∷ 2 ∷ 3 ∷ []
unfolding run
active_is = refl

get_beacon_proposer_index-returns_example :
    (winner : ValidatorIndex) × (get_beacon_proposer_index env (state_at 2) ≡ ok winner)
get_beacon_proposer_index-returns_example =
    get_beacon_proposer_index-returns env (state_at 2) 2 2 (validator 2) digest-IsSha256
      (omega arith) (omega arith) refl (rw active_is refl) refl refl (omega arith)
      (rw active_is (omega arith)) (rw active_is (omega arith))
