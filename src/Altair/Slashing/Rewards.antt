-- ===== src/Altair/Slashing/Rewards.antt =====
-- Who is paid where a validator is slashed.
use ethereum_consensus.Prelude.{
  ℕ, ◌/◌, ◌<◌, ◌≡◌, ◌≢◌, ◌∙◌, sym, ap, some, get_elem?, set, get_elem?-set_self, get_elem?-set_ne,
  get_elem?_bound, arith, u64_mod, wrapping_add, wrapping_mul,
}
use ethereum_consensus.Types.{Gwei, ValidatorIndex, Validator, BeaconState}
use ethereum_consensus.Types.Altair.{proposer_weight, weight_denominator}
use ethereum_consensus.Outcome.{ok, unwrap-eq-ok, ok-injective, div-eq-ok}
use ethereum_consensus.Action.{read->>=-eq-ok, lift->>=-eq-ok, modify-eq-ok, >>=-eq-ok}
use ethereum_consensus.Env.{Env}
use ethereum_consensus.Helpers.Committees.{get_beacon_proposer_index}
use ethereum_consensus.Helpers.Balances.{with_balances, set_balance, increase_balance}
use ethereum_consensus.Altair.Slashing.{pay_whistleblower}

increase_balance-eq-ok :
    (i delta : ℕ) (s : BeaconState) {s' : BeaconState} {u : Unit {0}}
    → increase_balance i delta s ≡ (ok u, s')
    → (b : Gwei) × (get_elem? s.balances i ≡ some b) × (set_balance i (wrapping_add b delta) s ≡ s')
unfolding increase_balance
increase_balance-eq-ok i delta s h =
    let (b, found, rest) = read->>=-eq-ok _ _ s h in (b, unwrap-eq-ok _ found, modify-eq-ok _ rest)

no_reward : (reward : Gwei) → wrapping_mul reward (proposer_weight / weight_denominator) ≡ 0
no_reward reward = omega arith

some-injective : {a b : ℕ} → some a ≡ some b → a ≡ b
some-injective h = cc

-- Two writes to balances, at different places: what stands there after both, and at the second
-- place between them.
paid :
    (p w b c : ℕ) (s : BeaconState) {s₁ s' : BeaconState} {x y : Gwei}
    → p ≢ w
    → get_elem? s.balances p ≡ some b
    → get_elem? s.balances w ≡ some c
    → set_balance p x s ≡ s₁
    → set_balance w y s₁ ≡ s'
    → (get_elem? s'.balances p ≡ some x)
      × (get_elem? s'.balances w ≡ some y)
      × (get_elem? s₁.balances w ≡ some c)
unfolding set_balance with_balances
paid p w b c s {s₁} {s'} {x} {y} differ at_p at_w first second =
    let first' : set s.balances p x ≡ s₁.balances = ap (λ (t : BeaconState). t.balances) first in
    let second' : set s₁.balances w y ≡ s'.balances = ap (λ (t : BeaconState). t.balances) second in
    let at_w₁ : get_elem? s₁.balances w ≡ some c =
      ap (λ bs. get_elem? bs w) (sym first') ∙ get_elem?-set_ne s.balances p w x differ ∙ at_w in
    (
      ap (λ bs. get_elem? bs p) (sym second')
          ∙ get_elem?-set_ne s₁.balances w p y (λ same. differ (sym same))
          ∙ ap (λ bs. get_elem? bs p) (sym first')
          ∙ get_elem?-set_self s.balances p x (get_elem?_bound s.balances p b at_p),
      ap (λ bs. get_elem? bs w) (sym second')
          ∙ get_elem?-set_self s₁.balances w y (get_elem?_bound s₁.balances w c at_w₁),
      at_w₁,
    )

-- If the whistleblower is not the proposer, and the payment succeeds, then the whistleblower's
-- balance grows by the whole reward, which is the slashed validator's effective balance divided by
-- the quotient, and the proposer's balance, a 64-bit word, stays as it was: the share of the
-- proposer, which the code scales by the integer quotient of the two weights, is nothing.
pub pay_whistleblower-whole :
    (env : Env) (i w p : ValidatorIndex) (b c : Gwei) (s s' : BeaconState)
    → get_beacon_proposer_index env s ≡ ok p
    → p ≢ w
    → get_elem? s.balances p ≡ some b
    → get_elem? s.balances w ≡ some c
    → b < u64_mod
    → pay_whistleblower env i (some w) s ≡ (ok tt, s')
    → (v : Validator) × (get_elem? s.validators i ≡ some v)
      × (get_elem? s'.balances p ≡ some b)
      × (get_elem? s'.balances w
          ≡ some (wrapping_add c (v.effective_balance / env.context.whistleblower_reward_quotient)))
unfolding pay_whistleblower
pay_whistleblower-whole env i w p b c s s' proposer differ at_p at_w small h =
    let (p', p'_is, e₁) = read->>=-eq-ok (get_beacon_proposer_index env) _ s h in
    let (v, found, e₂) = read->>=-eq-ok _ _ s e₁ in
    let (reward, reward_is, e₃) = lift->>=-eq-ok _ _ s e₂ in
    let (_, s₁, first, second) = >>=-eq-ok (increase_balance p' _) _ s e₃ in
    let (b', at_p', first_is) = increase_balance-eq-ok p' _ s first in
    let (c', at_w', second_is) = increase_balance-eq-ok w _ s₁ second in
    let same_p : p' ≡ p = ok-injective (sym p'_is ∙ proposer) in
    let same_b : b' ≡ b = some-injective (sym at_p' ∙ ap (get_elem? s.balances) same_p ∙ at_p) in
    let nothing = no_reward reward in
    let (at_p'', at_w'', other) =
      paid p' w b' c s (λ same. differ (sym same_p ∙ same)) at_p' at_w first_is second_is in
    let same_c : c' ≡ c = some-injective (sym at_w' ∙ other) in
    let (_, reward_eq) =
      div-eq-ok v.effective_balance env.context.whistleblower_reward_quotient reward_is in
    (
      v,
      unwrap-eq-ok _ found,
      ap (get_elem? s'.balances) (sym same_p) ∙ at_p'' ∙ ap some (omega (arith, nothing, same_b)),
      at_w'' ∙ ap some (omega (arith, nothing, same_c, reward_eq)),
    )
