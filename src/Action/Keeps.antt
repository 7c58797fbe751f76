-- ===== src/Action/Keeps.antt =====
-- What an action keeps of the state, however it ends: a rule for each way to build an action.
use ethereum_consensus.Prelude.{◌≡◌, ℕ, zero, suc, Bool, true, false, List, [], ◌∷◌, if◌then◌else◌}
use ethereum_consensus.Outcome.{Outcome, ok, err, fault}
use ethereum_consensus.Action.{
  StateAction, pure, read, gets, lift, modify, continue, ◌>>=◌, for_each, for_range, err≢ok,
  fault≢ok,
}

pub record Keeps {S A : Type 0} (P : S → Type 0) (m : StateAction S A) : Type 0 where
  pub at : (s : S) → P s → P (m s).1

module _ {S A : Type 0} {P : S → Type 0} where
  pub Keeps-read : (look : S → Outcome A) → Keeps P (read look)
  unfolding read
  Keeps-read look = record { at = λ state holds. holds }

  pub Keeps-gets : (look : S → A) → Keeps P (gets look)
  unfolding gets
  Keeps-gets look = record { at = λ state holds. holds }

  pub Keeps-pure : (value : A) → Keeps P (pure value)
  unfolding pure
  Keeps-pure value = record { at = λ state holds. holds }

  pub Keeps-lift : (outcome : Outcome A) → Keeps P (lift outcome)
  unfolding lift
  Keeps-lift outcome = record { at = λ state holds. holds }

  pub Keeps-if :
      (test : Bool) (first second : StateAction S A)
      → Keeps P first
      → Keeps P second
      → Keeps P (if test then first else second)
  Keeps-if true first second kept other = kept
  Keeps-if false first second other kept = kept

pub Keeps-modify :
    {S : Type 0} {P : S → Type 0} (f : S → S) → ((s : S) → P s → P (f s)) → Keeps P (modify f)
unfolding modify
Keeps-modify f h = record { at = h }

module _ {S A B : Type 0} {P : S → Type 0} where
  continue-Keeps :
      (r : Outcome A) (f : A → StateAction S B) (s : S)
      → ((a : A) → Keeps P (f a))
      → P s
      → P (continue r f s).1
  continue-Keeps (ok a) f s kf h = (kf a).at s h
  continue-Keeps (err e) f s kf h = h
  continue-Keeps (fault x) f s kf h = h

  pub Keeps-bind :
      (before : StateAction S A) (next : A → StateAction S B)
      → Keeps P before
      → ((value : A) → Keeps P (next value))
      → Keeps P (before >>= next)
  unfolding ◌>>=◌
  Keeps-bind before next first rest = record {
    at = λ state holds.
        let (outcome, left) = before state in
        continue-Keeps outcome next left rest (first.at state holds);
  }

pub Keeps-for_each :
    {S A : Type 0} {P : S → Type 0} (xs : List A) (body : A → StateAction S (Unit {0}))
    → ((x : A) → Keeps P (body x))
    → Keeps P (for_each xs body)
unfolding for_each
Keeps-for_each [] body h = Keeps-pure tt
Keeps-for_each (x ∷ xs) body h = Keeps-bind (body x) _ (h x) (λ _. Keeps-for_each xs body h)

pub Keeps-for_range :
    {S : Type 0} {P : S → Type 0} (n i : ℕ) (body : ℕ → StateAction S (Unit {0}))
    → ((j : ℕ) → Keeps P (body j))
    → Keeps P (for_range n i body)
unfolding for_range
Keeps-for_range zero i body h = Keeps-pure tt
Keeps-for_range (suc n) i body h =
    Keeps-bind (body i) _ (h i) (λ _. Keeps-for_range n (suc i) body h)

-- What holds of the state when an action returns, if `P` holds before it.
pub record Ensures {S A : Type 0} (P Q : S → Type 0) (m : StateAction S A) : Type 0 where
  pub at : (s : S) → P s → (a : A) → (m s).0 ≡ ok a → Q (m s).1

pub Ensures-modify :
    {S : Type 0} {P Q : S → Type 0} (f : S → S) → ((s : S) → P s → Q (f s)) → Ensures P Q (modify f)
unfolding modify
Ensures-modify f h = record { at = λ s p a e. h s p }

module _ {S A B : Type 0} {P Q : S → Type 0} where
  continue-Ensures :
      (r : Outcome A) (f : A → StateAction S B) (s : S)
      → ((a : A) → Ensures P Q (f a))
      → P s
      → (b : B) → (continue r f s).0 ≡ ok b
      → Q (continue r f s).1
  continue-Ensures (ok a) f s h p b e = (h a).at s p b e
  continue-Ensures (err x) f s h p b e = absurd (err≢ok e)
  continue-Ensures (fault x) f s h p b e = absurd (fault≢ok e)

  pub Ensures-bind :
      (m : StateAction S A) (f : A → StateAction S B)
      → Keeps P m
      → ((a : A) → Ensures P Q (f a))
      → Ensures P Q (m >>= f)
  unfolding ◌>>=◌
  Ensures-bind m f km h = record {
    at = λ s p b e. let (r, s') = m s in continue-Ensures r f s' h (km.at s p) b e;
  }

pub ruleset keeps_rules = (
  Keeps-pure, Keeps-read, Keeps-gets, Keeps-lift, Keeps-if, Keeps-bind, Keeps-for_each,
  Keeps-for_range,
)
