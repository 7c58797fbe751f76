-- ===== src/Action.antt =====
-- Functions that take `&mut BeaconState`: the state is threaded through, and comes back beside an
-- error too, since what was written before an early return stays written.
pub mod Atomic
pub mod Keeps
use ethereum_consensus.Prelude.{ℕ, zero, suc, ◌≡◌, ◌≢◌, refl, ap, Bool, false, List, [], ◌∷◌}
use ethereum_consensus.Errors.{Error}
use ethereum_consensus.Types.{BeaconState}
use ethereum_consensus.Outcome.{Outcome, Fault, ok, err, fault, fail_if, fail_if-eq-ok}

-- An action on states of a type, and on those of phase0.
abbrev pub StateAction : Type 0 → Type 0 → Type 0
StateAction S A = S → Outcome A × S

abbrev pub Action : Type 0 → Type 0
Action = StateAction BeaconState

module _ {S A : Type 0} where
  unfoldable pub pure : A → StateAction S A
  pure a s = (ok a, s)

  -- A call that only reads the state.
  unfoldable pub read : (S → Outcome A) → StateAction S A
  read f s = (f s, s)

  unfoldable pub gets : (S → A) → StateAction S A
  gets f s = (ok (f s), s)

  -- A value that does not depend on the state.
  unfoldable pub lift : Outcome A → StateAction S A
  lift r s = (r, s)

unfoldable pub modify : {S : Type 0} → (S → S) → StateAction S (Unit {0})
modify f s = (ok tt, f s)

-- Goes on after a call with what it returned and the state that it left.
abbrev pub continue : {S A B : Type 0} → Outcome A → (A → StateAction S B) → StateAction S B
continue (ok a) f s = f a s
continue (err e) f s = (err e, s)
continue (fault x) f s = (fault x, s)

infixl 5 ◌>>=◌ ◌>>◌
-- Opening this opens the ways to build an action too.
unfoldable pub ◌>>=◌ : {S A B : Type 0} → StateAction S A → (A → StateAction S B) → StateAction S B
unfolding pure read gets lift modify
◌>>=◌ m f s = let (r, s') = m s in continue r f s'

abbrev pub ◌>>◌ : {S B : Type 0} → StateAction S (Unit {0}) → StateAction S B → StateAction S B
m >> k = m >>= λ _. k

abbrev pub guard_not : {S : Type 0} → Bool → Error → StateAction S (Unit {0})
guard_not b e = lift (fail_if b e)

-- A `for` loop over a list, or `try_for_each`.
unfoldable pub for_each :
    {S A : Type 0} → List A → (A → StateAction S (Unit {0})) → StateAction S (Unit {0})
unfolding ◌>>=◌
for_each [] body = pure tt
for_each (x ∷ xs) body = body x >> for_each xs body

-- A `for` loop over the `n` numbers from `i` on.
unfoldable pub for_range :
    {S : Type 0} → ℕ → ℕ → (ℕ → StateAction S (Unit {0})) → StateAction S (Unit {0})
unfolding ◌>>=◌
for_range zero i body = pure tt
for_range (suc n) i body = body i >> for_range n (suc i) body

pub err≢ok : {A : Type 0} {e : Error} {a : A} → err e ≢ ok a
err≢ok h = cc

pub fault≢ok : {A : Type 0} {x : Fault} {a : A} → fault x ≢ ok a
fault≢ok h = cc

continue-eq-ok :
    {S A B : Type 0} (r : Outcome A) (f : A → StateAction S B) (s : S) {b : B} {s' : S}
    → continue r f s ≡ (ok b, s')
    → (a : A) × (r ≡ ok a) × (f a s ≡ (ok b, s'))
continue-eq-ok (ok a) f s h = (a, refl, h)
continue-eq-ok (err e) f s h = absurd (err≢ok (ap (λ p. p.0) h))
continue-eq-ok (fault x) f s h = absurd (fault≢ok (ap (λ p. p.0) h))

-- Inversion of a successful sequence: both parts were successful.
pub >>=-eq-ok :
    {S A B : Type 0} (m : StateAction S A) (f : A → StateAction S B) (s : S) {b : B} {s' : S}
    → (m >>= f) s ≡ (ok b, s')
    → (a : A) × (s₁ : S) × (m s ≡ (ok a, s₁)) × (f a s₁ ≡ (ok b, s'))
unfolding ◌>>=◌
>>=-eq-ok m f s h =
    let (a, e, rest) = continue-eq-ok (m s).0 f (m s).1 h in
    (a, (m s).1, (λ i. (e i, (m s).1)), rest)

-- The same where the first part only reads, and so leaves the state as it is.
pub read->>=-eq-ok :
    {S A B : Type 0} (g : S → Outcome A) (f : A → StateAction S B) (s : S) {b : B} {s' : S}
    → (read g >>= f) s ≡ (ok b, s')
    → (a : A) × (g s ≡ ok a) × (f a s ≡ (ok b, s'))
unfolding ◌>>=◌
read->>=-eq-ok g f s h = continue-eq-ok (g s) f s h

-- The same where the first part does not look at the state.
pub lift->>=-eq-ok :
    {S A B : Type 0} (r : Outcome A) (f : A → StateAction S B) (s : S) {b : B} {s' : S}
    → (lift r >>= f) s ≡ (ok b, s')
    → (a : A) × (r ≡ ok a) × (f a s ≡ (ok b, s'))
unfolding ◌>>=◌
lift->>=-eq-ok r f s h = continue-eq-ok r f s h

-- A guard that let the action go on.
pub guard_not->>-eq-ok :
    {S B : Type 0} (bad : Bool) (e : Error) (k : StateAction S B) (s : S) {b : B} {s' : S}
    → (guard_not bad e >> k) s ≡ (ok b, s')
    → (bad ≡ false) × (k s ≡ (ok b, s'))
guard_not->>-eq-ok bad e k s h =
    let (_, fine, rest) = lift->>=-eq-ok (fail_if bad e) (λ _. k) s h in
    (fail_if-eq-ok bad e fine, rest)

-- The same where nothing follows.
pub guard_not-eq-ok :
    {S : Type 0} (bad : Bool) (e : Error) {u : Unit {0}} {s s' : S}
    → guard_not bad e s ≡ (ok u, s')
    → (bad ≡ false) × (s ≡ s')
unfolding lift
guard_not-eq-ok bad e h = (fail_if-eq-ok bad e (ap (λ p. p.0) h), ap (λ p. p.1) h)

pub read-eq-ok :
    {S A : Type 0} (f : S → Outcome A) {a : A} {s s' : S}
    → read f s ≡ (ok a, s')
    → (f s ≡ ok a) × (s ≡ s')
unfolding read
read-eq-ok f h = (ap (λ p. p.0) h, ap (λ p. p.1) h)

pub modify-eq-ok :
    {S : Type 0} (f : S → S) {u : Unit {0}} {s s' : S} → modify f s ≡ (ok u, s') → f s ≡ s'
unfolding modify
modify-eq-ok f h = ap (λ p. p.1) h

pub gets->>=-eq-ok :
    {S A B : Type 0} (g : S → A) (f : A → StateAction S B) (s : S) {b : B} {s' : S}
    → (gets g >>= f) s ≡ (ok b, s')
    → f (g s) s ≡ (ok b, s')
unfolding ◌>>=◌
gets->>=-eq-ok g f s h = h

pub modify->>=-eq-ok :
    {S B : Type 0} (g : S → S) (f : Unit {0} → StateAction S B) (s : S) {b : B} {s' : S}
    → (modify g >>= f) s ≡ (ok b, s')
    → f tt (g s) ≡ (ok b, s')
unfolding ◌>>=◌
modify->>=-eq-ok g f s h = h
