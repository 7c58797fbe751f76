-- ===== src/Helpers/Exits/Churn.antt =====
-- The exit queue: how many validators leave in an epoch.
use ethereum_consensus.Prelude.{
  ℕ, zero, suc, ◌+◌, ◌≤◌, ◌<◌, ◌≡◌, ◌≢◌, refl, ap, sym, ◌∙◌, inl, inr, false, List, [], ◌∷◌, set,
  some, get_elem?, max, leb, ◌==◌, Bool-cases, if◌then◌else◌, arith, wrapping_add, wrapping_add-eq,
}
use ethereum_consensus.Types.{Epoch, ValidatorIndex, Validator, BeaconState, far_future_epoch}
use ethereum_consensus.Outcome.{ok, ok-injective, unwrap-eq-ok}
use ethereum_consensus.Action.{read->>=-eq-ok, gets->>=-eq-ok, modify-eq-ok, pure}
use ethereum_consensus.Env.{Env}
use ethereum_consensus.Helpers.Epochs.{compute_activation_exit_epoch, get_current_epoch}
use ethereum_consensus.Helpers.Accessors.{get_validator_churn_limit}
use ethereum_consensus.Helpers.Exits.{
  with_validators, set_validator, update_validator, max_epoch, latest_exit_epoch, exit_count,
  exit_at, queue_exit, initiate_validator_exit,
}

-- One if a validator leaves in an epoch, else nothing.
abbrev leaves_in : Validator → Epoch → ℕ
leaves_in v epoch = if v.exit_epoch == epoch then 1 else 0

exit_count-cons :
    (v : Validator) (vs : List Validator) (epoch : Epoch)
    → exit_count (v ∷ vs) epoch ≡ leaves_in v epoch + exit_count vs epoch
unfolding exit_count
exit_count-cons v vs epoch = ground arith

exit_count-nil : (epoch : Epoch) → exit_count [] epoch ≡ 0
unfolding exit_count
exit_count-nil epoch = refl

exit_count-set :
    (vs : List Validator) (i : ℕ) (v w : Validator) (epoch : Epoch)
    → get_elem? vs i ≡ some v
    → exit_count (set vs i w) epoch + leaves_in v epoch ≡ exit_count vs epoch + leaves_in w epoch
exit_count-set [] i v w epoch h = cc
exit_count-set (u ∷ vs) zero v w epoch h =
    let same : u ≡ v = cc in
    rw (exit_count-cons u vs epoch, exit_count-cons w vs epoch, same) (omega arith)
exit_count-set (u ∷ vs) (suc i) v w epoch h = omega (
  arith,
  exit_count-cons u vs epoch,
  exit_count-cons u (set vs i w) epoch,
  exit_count-set vs i v w epoch h,
)

latest-cons :
    (v : Validator) (vs : List Validator) (final : Epoch)
    → latest_exit_epoch (v ∷ vs) final ≡ (
        if v.exit_epoch == far_future_epoch
        then latest_exit_epoch vs final
        else max v.exit_epoch (latest_exit_epoch vs final))
unfolding latest_exit_epoch max_epoch
latest-cons v vs final = elim (Bool-cases (v.exit_epoch == far_future_epoch)) [
  | inl far ↦ rw far refl
  | inr near ↦ rw near refl
]

-- After the latest epoch of the queue nobody leaves.
exit_count-late :
    (vs : List Validator) (final epoch : Epoch)
    → latest_exit_epoch vs final < epoch
    → epoch ≢ far_future_epoch
    → exit_count vs epoch ≡ 0
exit_count-late [] final epoch late near = exit_count-nil epoch
exit_count-late (v ∷ vs) final epoch late near =
    elim (Bool-cases (v.exit_epoch == far_future_epoch)) [
      | inl far ↦
          let h : latest_exit_epoch vs final < epoch = rw (latest-cons v vs final, far) at late in
          let differs : (v.exit_epoch == epoch) ≡ false = ground arith in
          let stays : leaves_in v epoch ≡ 0 = rw differs refl in
          omega (arith, exit_count-cons v vs epoch, exit_count-late vs final epoch h near)
      | inr here ↦
          let h : max v.exit_epoch (latest_exit_epoch vs final) < epoch =
            rw (latest-cons v vs final, here) at late in
          let differs : (v.exit_epoch == epoch) ≡ false = ground arith in
          let stays : leaves_in v epoch ≡ 0 = rw differs refl in
          omega
            (arith, exit_count-cons v vs epoch, exit_count-late vs final epoch (omega arith) near)
    ]

some-injective : {a b : Validator} → some a ≡ some b → a ≡ b
some-injective h = cc

-- A validator that joins an epoch of the queue with room for one more keeps every epoch in bounds.
exit_count-joined :
    (vs : List Validator) (i : ℕ) (v w : Validator) (limit : ℕ) (e : Epoch)
    → get_elem? vs i ≡ some v
    → v.exit_epoch ≡ far_future_epoch
    → e < far_future_epoch
    → exit_count vs w.exit_epoch < limit
    → exit_count vs e ≤ limit
    → exit_count (set vs i w) e ≤ limit
exit_count-joined vs i v w limit e found fresh near room below =
    let stays : leaves_in v e ≡ 0 = ground arith in
    elim (Bool-cases (w.exit_epoch == e)) [
      | inl joins ↦
          let there : w.exit_epoch ≡ e = ground arith in
          let room_there : exit_count vs e < limit = rw there at room in
          let one : leaves_in w e ≡ 1 = rw joins refl in
          omega (arith, exit_count-set vs i v w e found)
      | inr elsewhere ↦
          let none_more : leaves_in w e ≡ 0 = rw elsewhere refl in
          omega (arith, exit_count-set vs i v w e found)
    ]

module _ (env : Env) where
  -- What `queue_exit` does: the epoch that it takes from the queue, and the one write.
  queue_exit-accepted :
      (i : ValidatorIndex) (s s' : BeaconState) (limit : ℕ) (epoch : Epoch)
      → get_current_epoch env s ≡ ok epoch
      → get_validator_churn_limit env s ≡ ok limit
      → queue_exit env i s ≡ (ok tt, s')
      → (v : Validator) × (get_elem? s.validators i ≡ some v)
        × (s'.validators
            ≡ set s.validators i (
                exit_at
                  (if leb limit (
                      exit_count s.validators
                        (latest_exit_epoch s.validators (compute_activation_exit_epoch env epoch)))
                    then wrapping_add
                        (latest_exit_epoch s.validators (compute_activation_exit_epoch env epoch))
                        1
                    else latest_exit_epoch s.validators (compute_activation_exit_epoch env epoch))
                  env.context.min_validator_withdrawability_delay
                  v))
  unfolding queue_exit update_validator set_validator with_validators
  queue_exit-accepted i s s' limit epoch epoch_is limit_is e =
      let (epoch', epoch'_is, e₁) = read->>=-eq-ok _ _ s e in
      let e₂ = gets->>=-eq-ok (λ state. state.validators) _ s e₁ in
      let (limit', limit'_is, e₃) = read->>=-eq-ok _ _ s e₂ in
      let (v, found, e₄) = read->>=-eq-ok _ _ s e₃ in
      let same_epoch : epoch' ≡ epoch = ok-injective (sym epoch'_is ∙ epoch_is) in
      let same_limit : limit' ≡ limit = ok-injective (sym limit'_is ∙ limit_is) in
      rw (← same_epoch, ← same_limit)
        (v, unwrap-eq-ok _ found, sym (ap (λ (t : BeaconState). t.validators) (modify-eq-ok _ e₄)))

  -- The churn does not grow over the limit by an exit at the end of the queue.
  exit_at-churn :
      (vs : List Validator) (i : ℕ) (v : Validator) (limit delay : ℕ) (final : Epoch)
      → get_elem? vs i ≡ some v
      → v.exit_epoch ≡ far_future_epoch
      → 0 < limit
      → latest_exit_epoch vs final + 1 < far_future_epoch
      → ((e : Epoch) → e < far_future_epoch → exit_count vs e ≤ limit)
      → (e : Epoch) → e < far_future_epoch
      → exit_count
          (set vs i (
            exit_at
              (if leb limit (exit_count vs (latest_exit_epoch vs final))
                then wrapping_add (latest_exit_epoch vs final) 1
                else latest_exit_epoch vs final)
              delay
              v))
          e
        ≤ limit
  unfolding exit_at
  exit_at-churn vs i v limit delay final found fresh positive room below e near =
      let last = latest_exit_epoch vs final in
      let next = wrapping_add-eq last 1 (omega arith) in
      elim (Bool-cases (leb limit (exit_count vs last))) [
        | inl full ↦
            let empty = exit_count-late vs final (last + 1) (omega arith) (omega arith) in
            rw (full, next)
              (exit_count-joined vs i v _ limit e found fresh near (omega arith) (below e near))
        | inr free ↦
            rw free
              (exit_count-joined vs i v _ limit e found fresh near (ground arith) (below e near))
      ]

  -- If as many validators leave in each epoch as the churn limit allows, that is positive, and the
  -- queue does not reach the last epochs, then after `initiate_validator_exit` no more validators
  -- than that leave in any epoch.
  pub initiate_validator_exit-churn :
      (i : ValidatorIndex) (s s' : BeaconState) (limit : ℕ) (epoch : Epoch)
      → get_current_epoch env s ≡ ok epoch
      → get_validator_churn_limit env s ≡ ok limit
      → 0 < limit
      → latest_exit_epoch s.validators (compute_activation_exit_epoch env epoch) + 1
        < far_future_epoch
      → ((e : Epoch) → e < far_future_epoch → exit_count s.validators e ≤ limit)
      → initiate_validator_exit env i s ≡ (ok tt, s')
      → (e : Epoch) → e < far_future_epoch
      → exit_count s'.validators e ≤ limit
  unfolding initiate_validator_exit pure
  initiate_validator_exit-churn i s s' limit epoch epoch_is limit_is positive room below returns e
        near =
      let (v, found, e₁) = read->>=-eq-ok _ _ s returns in
      elim (Bool-cases (v.exit_epoch == far_future_epoch)) [
        | inl fresh ↦
            let (w, w_found, result) =
              queue_exit-accepted i s s' limit epoch epoch_is limit_is (rw fresh at e₁) in
            let same : v ≡ w = some-injective (sym (unwrap-eq-ok _ found) ∙ w_found) in
            let fresh_w : w.exit_epoch ≡ far_future_epoch = rw (← same) (ground arith) in
            rw result
              (exit_at-churn s.validators i w limit _ _ w_found fresh_w positive room below e near)
        | inr old ↦
            let same : s.validators ≡ s'.validators = ap (λ p. p.1.validators) (rw old at e₁) in
            rw (← same) (below e near)
      ]
