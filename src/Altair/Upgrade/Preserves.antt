-- ===== src/Altair/Upgrade/Preserves.antt =====
-- What the upgrade to altair takes over from the phase0 state.
use ethereum_consensus.Prelude.{
  ℕ, ◌≡◌, refl, ◌∙◌, List, [], ◌∷◌, length, replicate, length-replicate, length-set,
}
use mathlib.Core.Path.{subst}
use ethereum_consensus.Types.{Epoch, ValidatorIndex, PendingAttestation, BeaconState}
use ethereum_consensus.Types.Altair as Altair
use ethereum_consensus.Outcome.{Outcome, ok, err, fault, >>=-eq-ok}
use ethereum_consensus.Action.{err≢ok, fault≢ok}
use ethereum_consensus.Action.Keeps.{
  Keeps, Keeps-bind, Keeps-pure, Keeps-read, Keeps-modify, Ensures, Ensures-bind, Ensures-modify,
  keeps_rules,
}
use ethereum_consensus.Env.{Env}
use ethereum_consensus.Helpers.Epochs.{get_current_epoch}
use ethereum_consensus.Altair.Shared.{shared}
use ethereum_consensus.Altair.Upgrade.{
  set_previous_flags, translate_flags, translate_attesters, translate_participation,
  with_sync_committees, final_state, initial_state, complete_upgrade, upgrade_to_altair,
}

-- Only the flags of the previous epoch may have changed.
record Untouched (before s : Altair.BeaconState) : Type 0 where
  shared_is : shared s ≡ shared before
  previous_is : length s.previous_epoch_participation ≡ length before.previous_epoch_participation
  current_is : s.current_epoch_participation ≡ before.current_epoch_participation
  scores_is : s.inactivity_scores ≡ before.inactivity_scores

-- The same, and one committee serves for both periods.
record Completed (before s : Altair.BeaconState) : Type 0 where
  untouched : Untouched before s
  committees_are : s.current_sync_committee ≡ s.next_sync_committee

module _ {before : Altair.BeaconState} where
  set_previous_flags-Untouched :
      (i flags : ℕ) (s : Altair.BeaconState)
      → Untouched before s
      → Untouched before (set_previous_flags i flags s)
  unfolding set_previous_flags shared
  set_previous_flags-Untouched i flags s h = record {
    shared_is = h.shared_is;
    previous_is = length-set s.previous_epoch_participation i flags ∙ h.previous_is;
    current_is = h.current_is;
    scores_is = h.scores_is;
  }

  translate_flags-Untouched :
      (i : ValidatorIndex) (flag_indices : List ℕ)
      → Keeps (Untouched before) (translate_flags i flag_indices)
  unfolding translate_flags
  translate_flags-Untouched i [] = Keeps-pure tt
  translate_flags-Untouched i (flag_index ∷ flag_indices) = Keeps-bind _ _ (Keeps-read _) λ flags.
      Keeps-bind _ _ (Keeps-modify _ (set_previous_flags-Untouched i _))
        λ _. translate_flags-Untouched i flag_indices

  translate_attesters-Untouched :
      (flag_indices : List ℕ) (indices : List ValidatorIndex)
      → Keeps (Untouched before) (translate_attesters flag_indices indices)
  unfolding translate_attesters
  translate_attesters-Untouched flag_indices [] = Keeps-pure tt
  translate_attesters-Untouched flag_indices (i ∷ indices) =
      Keeps-bind _ _ (translate_flags-Untouched i flag_indices)
        (λ _. translate_attesters-Untouched flag_indices indices)

  with_sync_committees-Completed :
      (c : Altair.SyncCommittee) (s : Altair.BeaconState)
      → Untouched before s
      → Completed before (with_sync_committees c s)
  unfolding with_sync_committees shared
  with_sync_committees-Completed c s h = record {
    untouched = record {
      shared_is = h.shared_is;
      previous_is = h.previous_is;
      current_is = h.current_is;
      scores_is = h.scores_is;
    };
    committees_are = refl;
  }

module _ (env : Env) {before : Altair.BeaconState} where
  translate_participation-Untouched :
      (pending : List PendingAttestation)
      → Keeps (Untouched before) (translate_participation env pending)
  unfolding translate_participation
  translate_participation-Untouched [] = Keeps-pure tt
  translate_participation-Untouched (a ∷ pending) = Keeps-bind _ _ (Keeps-read _) λ flag_indices.
      Keeps-bind _ _ (Keeps-read _) λ indices.
        Keeps-bind _ _ (translate_attesters-Untouched flag_indices indices)
          λ _. translate_participation-Untouched pending

  complete_upgrade-Completed :
      (pending : List PendingAttestation)
      → Ensures (Untouched before) (Completed before) (complete_upgrade env pending)
  unfolding complete_upgrade
  complete_upgrade-Completed pending =
      search
        (
          keeps_rules, Ensures-bind, Ensures-modify, translate_participation-Untouched,
          with_sync_committees-Completed,
        )
        depth 9

final_state-eq-ok :
    (r : Outcome (Unit {0})) (s : Altair.BeaconState) {s' : Altair.BeaconState}
    → final_state (r, s) ≡ ok s'
    → (r ≡ ok tt) × (s ≡ s')
unfolding final_state
final_state-eq-ok (ok u) s h = (refl, cc)
final_state-eq-ok (err e) s h = absurd (err≢ok h)
final_state-eq-ok (fault x) s h = absurd (fault≢ok h)

-- The state of altair that a state of phase0 has become in an epoch.
abbrev pub Upgraded : Env → Epoch → BeaconState → Altair.BeaconState → Type 0
Upgraded env epoch s s' =
    (shared s' ≡ record s {
      fork = record {
        previous_version = s.fork.current_version;
        current_version = env.context.altair_fork_version;
        epoch = epoch;
      };
      previous_epoch_attestations = [];
      current_epoch_attestations = [];
    })
    × (length s'.previous_epoch_participation ≡ length s.validators)
    × (s'.current_epoch_participation ≡ replicate (length s.validators) 0)
    × (s'.inactivity_scores ≡ replicate (length s.validators) 0)
    × (s'.current_sync_committee ≡ s'.next_sync_committee)

-- If the upgrade of a phase0 state returns a state, then that state has all that the two kinds of
-- state share, with the versions of the fork to altair and without pending attestations; it has
-- flags for the previous epoch for each validator, no flags for the current epoch and no inactivity
-- scores; and its two sync committees are the same.
pub upgrade_to_altair-Upgraded :
    (env : Env) (s : BeaconState) (s' : Altair.BeaconState)
    → upgrade_to_altair env s ≡ ok s'
    → (epoch : Epoch) × (get_current_epoch env s ≡ ok epoch) × Upgraded env epoch s s'
unfolding upgrade_to_altair initial_state shared
upgrade_to_altair-Upgraded env s s' h =
    let (epoch, epoch_is, rest) = >>=-eq-ok (get_current_epoch env s) _ h in
    let before = initial_state env epoch s in
    let left = complete_upgrade env s.previous_epoch_attestations before in
    let (fine, same) = final_state-eq-ok left.0 left.1 rest in
    let unchanged : Untouched before before = record {
      shared_is = refl;
      previous_is = refl;
      current_is = refl;
      scores_is = refl;
    } in
    let completed =
      (complete_upgrade-Completed env s.previous_epoch_attestations).at before unchanged tt fine in
    let completed' : Completed before s' = subst (Completed before) same completed in
    let kept = completed'.untouched in
    (
      epoch,
      epoch_is,
      (
        kept.shared_is,
        kept.previous_is ∙ length-replicate {A = ℕ} (length s.validators) 0,
        kept.current_is,
        kept.scores_is,
        completed'.committees_are,
      ),
    )
