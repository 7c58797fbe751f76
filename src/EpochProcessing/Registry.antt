-- ===== src/EpochProcessing/Registry.antt =====
-- ethereum-consensus/src/phase0/epoch_processing.rs: `process_registry_updates`, which ejects
-- validators with a low balance, and takes validators out of the activation queue.
pub mod Shape
use ethereum_consensus.Prelude.{
  ℕ, zero, suc, Bool, ◌&&◌, ◌||◌, List, [], ◌∷◌, length, take, indices_where, map, leb, ltb, ◌==◌,
  if◌then◌else◌, wrapping_add,
}
use ethereum_consensus.Prelude.Sort.{sort_by}
use ethereum_consensus.Types.{Epoch, ValidatorIndex, Validator, BeaconState}
use ethereum_consensus.Outcome
use ethereum_consensus.Outcome.{Outcome, ok, index}
use ethereum_consensus.Action.{Action, read, gets, pure, for_each, for_range, ◌>>=◌, ◌>>◌}
use ethereum_consensus.Env.{Env}
use ethereum_consensus.Helpers.Predicates.{
  is_active_validator, is_eligible_for_activation, is_eligible_for_activation_queue,
}
use ethereum_consensus.Helpers.Epochs.{compute_activation_exit_epoch, get_current_epoch}
use ethereum_consensus.Helpers.Accessors.{get_validator_churn_limit}
use ethereum_consensus.Helpers.Exits.{update_validator, initiate_validator_exit}

-- A place in the activation queue: the key of the sort, an eligibility epoch and an index.
abbrev pub QueueEntry : Type 0
QueueEntry = Epoch × ValidatorIndex

-- `(a.activation_eligibility_epoch, i).cmp(&(b.activation_eligibility_epoch, j))`
unfoldable pub entry_le : QueueEntry → QueueEntry → Bool
entry_le (a, i) (b, j) = ltb a b || (a == b && leb i j)

-- The keys of the validators at some indices.
unfoldable pub entries_of : List ValidatorIndex → List Validator → Outcome (List QueueEntry)
entries_of [] validators = ok []
entries_of (i ∷ indices) validators = Outcome.◌>>=◌ (index validators i) λ v.
    Outcome.◌>>=◌ (entries_of indices validators)
      λ rest. ok ((v.activation_eligibility_epoch, i) ∷ rest)

-- The validators that can be activated, in the order of their turn.
unfoldable pub activation_queue : BeaconState → Outcome (List ValidatorIndex)
activation_queue state =
    let eligible = indices_where (is_eligible_for_activation state) 0 state.validators in
    Outcome.◌>>=◌ (entries_of eligible state.validators)
      λ entries. ok (map (λ e. e.1) (sort_by entry_le entries))

unfoldable pub activate_at : Epoch → Validator → Validator
activate_at epoch v = record v { activation_epoch = epoch }

unfoldable pub queue_at : Epoch → Validator → Validator
queue_at epoch v = record v { activation_eligibility_epoch = epoch }

module _ (env : Env) where
  open env use {context}

  -- The body of the first loop.
  unfoldable pub update_eligibility : Epoch → ValidatorIndex → Action (Unit {0})
  update_eligibility current_epoch i = do
    v ← read (λ state. index state.validators i)
    if is_eligible_for_activation_queue context v
        then update_validator i (queue_at (wrapping_add current_epoch 1))
        else pure tt
    v' ← read (λ state. index state.validators i)
    if is_active_validator v' current_epoch && leb v'.effective_balance context.ejection_balance
        then initiate_validator_exit env i
        else pure tt

  unfoldable pub process_registry_updates : Action (Unit {0})
  process_registry_updates = do
    current_epoch ← read (get_current_epoch env)
    n ← gets (λ state. length state.validators)
    for_range n 0 (update_eligibility current_epoch)
    queue ← read activation_queue
    let activation_exit_epoch = compute_activation_exit_epoch env current_epoch
    churn_limit ← read (get_validator_churn_limit env)
    for_each (take churn_limit queue) λ i. update_validator i (activate_at activation_exit_epoch)
