-- ===== src/Action/Atomic.antt =====
-- Actions that change nothing, and actions that change nothing unless they return: a rule for each
-- way to build an action.
use ethereum_consensus.Prelude.{
  ◌≡◌, refl, sym, ap, ◌∙◌, ◌⊎◌, inl, inr, Bool, true, false, if◌then◌else◌,
}
use mathlib.Core.Path.{subst}
use ethereum_consensus.Errors.{Error}
use ethereum_consensus.Outcome.{Outcome, ok, err, fault}
use ethereum_consensus.Action.{
  StateAction, pure, read, gets, lift, modify, continue, ◌>>=◌, err≢ok, >>=-eq-ok,
}

pub record IsQuiet {S A : Type 0} (m : StateAction S A) : Type 0 where
  pub at : (s : S) → (m s).1 ≡ s

pub record IsAtomic {S A : Type 0} (m : StateAction S A) : Type 0 where
  pub at : (s : S) → ((a : A) × ((m s).0 ≡ ok a)) ⊎ ((m s).1 ≡ s)

module _ {S A : Type 0} where
  pub pure-IsQuiet : (a : A) → IsQuiet {S = S} (pure a)
  unfolding pure
  pure-IsQuiet a = record { at = λ s. refl }

  pub read-IsQuiet : (f : S → Outcome A) → IsQuiet (read f)
  unfolding read
  read-IsQuiet f = record { at = λ s. refl }

  pub gets-IsQuiet : (f : S → A) → IsQuiet (gets f)
  unfolding gets
  gets-IsQuiet f = record { at = λ s. refl }

  pub lift-IsQuiet : (r : Outcome A) → IsQuiet {S = S} (lift r)
  unfolding lift
  lift-IsQuiet r = record { at = λ s. refl }

  pub if-IsAtomic :
      (b : Bool) (m n : StateAction S A) → IsAtomic m → IsAtomic n → IsAtomic (if b then m else n)
  if-IsAtomic true m n am an = am
  if-IsAtomic false m n am an = an

pub modify-IsAtomic : {S : Type 0} (f : S → S) → IsAtomic (modify f)
unfolding modify
modify-IsAtomic f = record { at = λ s. inl (tt, refl) }

module _ {S A B : Type 0} where
  continue-quiet :
      (r : Outcome A) (f : A → StateAction S B) (s : S)
      → ((a : A) → IsQuiet (f a))
      → (continue r f s).1 ≡ s
  continue-quiet (ok a) f s h = (h a).at s
  continue-quiet (err e) f s h = refl
  continue-quiet (fault x) f s h = refl

  pub bind-IsQuiet :
      (m : StateAction S A) (f : A → StateAction S B)
      → IsQuiet m
      → ((a : A) → IsQuiet (f a))
      → IsQuiet (m >>= f)
  unfolding ◌>>=◌
  bind-IsQuiet m f qm qf = record { at = λ s. continue-quiet (m s).0 f (m s).1 qf ∙ qm.at s }

  continue-atomic :
      (r : Outcome A) (f : A → StateAction S B) (s : S)
      → ((a : A) → IsAtomic (f a))
      → ((b : B) × ((continue r f s).0 ≡ ok b)) ⊎ ((continue r f s).1 ≡ s)
  continue-atomic (ok a) f s h = (h a).at s
  continue-atomic (err e) f s h = inr refl
  continue-atomic (fault x) f s h = inr refl

  pub bind-IsAtomic :
      (m : StateAction S A) (f : A → StateAction S B)
      → IsQuiet m
      → ((a : A) → IsAtomic (f a))
      → IsAtomic (m >>= f)
  unfolding ◌>>=◌
  bind-IsAtomic m f qm af = record {
    at = λ s. elim (continue-atomic (m s).0 f (m s).1 af) [
      | inl returns ↦ inl returns
      | inr same ↦ inr (same ∙ qm.at s)
    ];
  }

pub ruleset atomic_rules = (
  pure-IsQuiet, read-IsQuiet, gets-IsQuiet, lift-IsQuiet, bind-IsQuiet, if-IsAtomic,
  modify-IsAtomic, bind-IsAtomic,
)

-- An atomic action that ends in an error leaves the state as it was.
pub atomic-err :
    {S A : Type 0} (m : StateAction S A) {e : Error} {s s' : S}
    → IsAtomic m
    → m s ≡ (err e, s')
    → s' ≡ s
atomic-err m {s = s} h failed = elim (h.at s) [
  | inl (a, returned) ↦ absurd (err≢ok (sym (ap (λ p. p.0) failed) ∙ returned))
  | inr same ↦ sym (ap (λ p. p.1) failed) ∙ same
]

-- Inversion of a successful sequence whose first part changes nothing.
pub quiet->>=-eq-ok :
    {S A B : Type 0} (m : StateAction S A) (f : A → StateAction S B) (s : S) {b : B} {s' : S}
    → IsQuiet m
    → (m >>= f) s ≡ (ok b, s')
    → (a : A) × ((m s).0 ≡ ok a) × (f a s ≡ (ok b, s'))
quiet->>=-eq-ok m f s {b = b} {s' = s'} quiet h =
    let (a, s₁, first, rest) = >>=-eq-ok m f s h in
    let same = sym (ap (λ p. p.1) first) ∙ quiet.at s in
    (a, ap (λ p. p.0) first, subst (λ t. f a t ≡ (ok b, s')) same rest)
