-- ===== src/BlockProcessing/Exits/Accepted.antt =====
-- Which voluntary exits `process_voluntary_exit` accepts, and what it does with them.
use ethereum_consensus.Prelude.{
  ◌≤◌, ◌<◌, ◌≡◌, ◌↔◌, refl, false, not, Option, none, some, get_elem?, arith, ◌==◌, le→ltb, le→leb,
  lt→ltb, wrapping_add,
}
use ethereum_consensus.Types.{
  Epoch, Domain, Validator, ValidatorIndex, SignedVoluntaryExit, BeaconState, far_future_epoch,
  voluntary_exit,
}
use ethereum_consensus.Errors.{Error}
use ethereum_consensus.Outcome.{Outcome, ok, err, fault, ok_or}
use ethereum_consensus.Action.{◌>>=◌, read->>=-eq-ok, lift->>=-eq-ok, guard_not->>-eq-ok}
use ethereum_consensus.Env.{Env, voluntary_exit_object}
use ethereum_consensus.Helpers.Predicates.{is_active_validator}
use ethereum_consensus.Helpers.Epochs.{get_current_epoch}
use ethereum_consensus.Helpers.Domains.{get_domain, verify_signed_data}
use ethereum_consensus.Helpers.Accessors.Returns.{get_validator_churn_limit-returns}
use ethereum_consensus.Helpers.Exits.{update_validator, queue_exit, initiate_validator_exit}
use ethereum_consensus.BlockProcessing.Exits.{map_err, process_voluntary_exit}

map_err-eq-ok : (r : Outcome (Unit {0})) (e : Error) → map_err r e ≡ ok tt → r ≡ ok tt
unfolding map_err
map_err-eq-ok (ok u) e h = refl
map_err-eq-ok (err x) e h = cc
map_err-eq-ok (fault x) e h = cc

ok_or-eq-ok : (o : Option Validator) (e : Error) {v : Validator} → ok_or o e ≡ ok v → o ≡ some v
ok_or-eq-ok none e h = cc
ok_or-eq-ok (some v) e h = cc

is_active_validator-bounds :
    (v : Validator) (epoch : Epoch)
    → not (is_active_validator v epoch) ≡ false
    → (v.activation_epoch ≤ epoch) × (epoch < v.exit_epoch)
unfolding is_active_validator
is_active_validator-bounds v epoch h = ground arith

same-epoch : (a b : Epoch) → not (a == b) ≡ false → a ≡ b
same-epoch a b h = ground arith

-- What holds when a voluntary exit has taken a state to another.
abbrev pub Exited : Env → SignedVoluntaryExit → BeaconState → BeaconState → Type 0
Exited env op s s' =
    (v : Validator) × (epoch : Epoch) × (domain : Domain) × (get_elem? s.validators
        op.message.validator_index
      ≡ some v)
    × (get_current_epoch env s ≡ ok epoch)
    × (v.activation_epoch ≤ epoch)
    × (epoch < far_future_epoch)
    × (v.exit_epoch ≡ far_future_epoch)
    × (op.message.epoch ≤ epoch)
    × (wrapping_add v.activation_eligibility_epoch env.context.shard_committee_period ≤ epoch)
    × (get_domain env voluntary_exit (some op.message.epoch) s ≡ ok domain)
    × (verify_signed_data env (voluntary_exit_object op.message) op.signature v.public_key domain
        ≡ ok tt)
    × (initiate_validator_exit env op.message.validator_index s ≡ (ok tt, s'))

-- If a voluntary exit is accepted, then it names a validator of the registry that was active in
-- the current epoch and had not begun to exit, its epoch is not in the future, the eligibility
-- epoch of the validator and the committee period, as 64-bit words, add up to no more than the
-- current epoch, the signature is valid, and the exit of the validator was begun.
pub process_voluntary_exit-accepted :
    (env : Env) (op : SignedVoluntaryExit) (s s' : BeaconState)
    → process_voluntary_exit env op s ≡ (ok tt, s')
    → Exited env op s s'
unfolding process_voluntary_exit
process_voluntary_exit-accepted env op s s' e =
    let (v, found, e₁) = read->>=-eq-ok _ _ s e in
    let (epoch, now, e₂) = read->>=-eq-ok _ _ s e₁ in
    let (active, e₃) = guard_not->>-eq-ok _ _ _ s e₂ in
    let (fresh, e₄) = guard_not->>-eq-ok _ _ _ s e₃ in
    let (due, e₅) = guard_not->>-eq-ok _ _ _ s e₄ in
    let (eligible, e₆) = guard_not->>-eq-ok _ _ _ s e₅ in
    let (domain, domain_is, e₇) = read->>=-eq-ok _ _ s e₆ in
    let (_, signed, begun) = lift->>=-eq-ok _ _ s e₇ in
    let (from, before_exit) = is_active_validator-bounds v epoch active in
    let open_ended = same-epoch _ _ fresh in
    (
      v,
      epoch,
      domain,
      ok_or-eq-ok _ _ found,
      now,
      from,
      omega (arith, before_exit, open_ended),
      open_ended,
      ground arith,
      ground arith,
      domain_is,
      map_err-eq-ok _ _ signed,
      begun,
    )

-- What the code asks of a voluntary exit.
abbrev pub IsValidExit : Env → SignedVoluntaryExit → BeaconState → Type 0
IsValidExit env op s =
    (v : Validator) × (epoch : Epoch) × (domain : Domain) × (get_elem? s.validators
        op.message.validator_index
      ≡ some v)
    × (get_current_epoch env s ≡ ok epoch)
    × (v.activation_epoch ≤ epoch)
    × (epoch < far_future_epoch)
    × (v.exit_epoch ≡ far_future_epoch)
    × (op.message.epoch ≤ epoch)
    × (wrapping_add v.activation_eligibility_epoch env.context.shard_committee_period ≤ epoch)
    × (get_domain env voluntary_exit (some op.message.epoch) s ≡ ok domain)
    × (verify_signed_data env (voluntary_exit_object op.message) op.signature v.public_key domain
        ≡ ok tt)

-- A validator that has not begun to exit can always begin.
initiate_validator_exit-returns :
    (env : Env) (i : ValidatorIndex) (s : BeaconState) (v : Validator) (epoch : Epoch)
    → 0 < env.context.churn_limit_quotient
    → get_elem? s.validators i ≡ some v
    → get_current_epoch env s ≡ ok epoch
    → v.exit_epoch ≡ far_future_epoch
    → (initiate_validator_exit env i s).0 ≡ ok tt
unfolding initiate_validator_exit queue_exit update_validator ◌>>=◌
initiate_validator_exit-returns env i s v epoch positive found now fresh =
    let (limit, churn) = get_validator_churn_limit-returns env s epoch positive now in
    rw (found, fresh, now, churn, found) refl

valid-accepted :
    (env : Env) (op : SignedVoluntaryExit) (s : BeaconState)
    → 0 < env.context.churn_limit_quotient
    → IsValidExit env op s
    → (process_voluntary_exit env op s).0 ≡ ok tt
unfolding process_voluntary_exit is_active_validator map_err ◌>>=◌
valid-accepted env op s positive
      (v, epoch, domain, found, now, active, past, fresh, due, eligible, domain_is, signed) =
    rw
      (
        found,
        now,
        le→leb _ _ active,
        fresh,
        lt→ltb _ _ past,
        le→ltb _ _ due,
        le→ltb _ _ eligible,
        domain_is,
        signed,
      )
      (initiate_validator_exit-returns env op.message.validator_index s v epoch positive found now
        fresh)

accepted-valid :
    (env : Env) (op : SignedVoluntaryExit) (s : BeaconState)
    → (process_voluntary_exit env op s).0 ≡ ok tt
    → IsValidExit env op s
accepted-valid env op s h =
    let after = (process_voluntary_exit env op s).1 in
    let (v, epoch, domain, found, now, active, past, fresh, due, eligible, domain_is, signed, _) =
      process_voluntary_exit-accepted env op s after (λ i. (h i, after)) in
    (v, epoch, domain, found, now, active, past, fresh, due, eligible, domain_is, signed)

-- Where the churn limit quotient is positive, a voluntary exit is accepted exactly if it names a
-- validator of the registry that is active in the current epoch and has not begun to exit, its
-- epoch is not in the future, the eligibility epoch of the validator and the committee period, as
-- 64-bit words, add up to no more than the current epoch, and the current epoch and the signature
-- domain of the exit's epoch can be computed, with the signature valid in that domain. So how long
-- the validator has been active does not matter.
pub process_voluntary_exit_iff :
    (env : Env) (op : SignedVoluntaryExit) (s : BeaconState)
    → 0 < env.context.churn_limit_quotient
    → ((process_voluntary_exit env op s).0 ≡ ok tt) ↔ IsValidExit env op s
process_voluntary_exit_iff env op s positive =
    (accepted-valid env op s, valid-accepted env op s positive)
