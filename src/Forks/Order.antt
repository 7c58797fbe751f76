-- ===== src/Forks/Order.antt =====
-- The forks follow one another.
use ethereum_consensus.Prelude.{ℕ, ◌≡◌, ◌≤◌, arith}
use mathlib.Core.Path.{subst}
use native.Mathlib.Nat.{le-div_iff_mul-le, le_trans}
use ethereum_consensus.Types.{Slot, Epoch, Context}
use ethereum_consensus.Outcome.{ok, div, div-eq-ok, >>=-eq-ok, ok-injective}
use ethereum_consensus.Forks.{Fork, phase0, altair, bellatrix, capella, deneb, fork_at, fork_for}

-- The place of a fork in their order.
abbrev pub order_of : Fork → ℕ
order_of phase0 = 0
order_of altair = 1
order_of bellatrix = 2
order_of capella = 3
order_of deneb = 4

fork_at_monotone :
    (context : Context) (e e' : Epoch)
    → e ≤ e'
    → order_of (fork_at e context) ≤ order_of (fork_at e' context)
unfolding fork_at
fork_at_monotone context e e' h = ground arith

-- If the forks of two slots are known, and the first slot is not after the second, then the fork of
-- the first is not after that of the second, whatever the epochs of the configuration are.
pub fork_for_monotone :
    (context : Context) (slot slot' : Slot) (f f' : Fork)
    → slot ≤ slot'
    → fork_for slot context ≡ ok f
    → fork_for slot' context ≡ ok f'
    → order_of f ≤ order_of f'
unfolding fork_for
fork_for_monotone context slot slot' f f' h is_f is_f' =
    let (e, e_is, at) = >>=-eq-ok (div slot context.slots_per_epoch) _ is_f in
    let (e', e'_is, at') = >>=-eq-ok (div slot' context.slots_per_epoch) _ is_f' in
    let (positive, e_eq) = div-eq-ok slot context.slots_per_epoch e_is in
    let (_, e'_eq) = div-eq-ok slot' context.slots_per_epoch e'_is in
    let reached =
      (le-div_iff_mul-le {x = e} {y = slot'} positive).1
        (le_trans ((le-div_iff_mul-le {x = e} {y = slot} positive).0 (omega (arith, e_eq))) h) in
    let ordered = fork_at_monotone context e e' (omega (arith, e'_eq, reached)) in
    subst (λ g. order_of g ≤ order_of f') (ok-injective at)
      (subst (λ g. order_of (fork_at e context) ≤ order_of g) (ok-injective at') ordered)
