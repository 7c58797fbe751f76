-- ===== src/Outcome.antt =====
-- How a call of a function that leaves the state alone can end: with a value, with the `Err` of
-- its `Result`, or with a fault. A fault is a panic (an index out of bounds, a division by zero, a
-- failed `expect`), or a loop that has used up its fuel.
use ethereum_consensus.Prelude.{
  ℕ, zero, suc, ◌/◌, ◌%◌, ◌<◌, ◌≡◌, refl, sym, ◌∙◌, Bool, true, false, Option, none, some, List,
  arith, ◌==◌, if◌then◌else◌, get_elem?,
}
use ethereum_consensus.Errors.{Error}

pub data Fault : Type 0 where
  panic out_of_fuel : Fault

pub data Outcome (A : Type 0) : Type 0 where
  ok : A → Outcome A
  err : Error → Outcome A
  fault : Fault → Outcome A

infixl 5 ◌>>=◌ ◌>>◌
abbrev pub ◌>>=◌ : {A B : Type 0} → Outcome A → (A → Outcome B) → Outcome B
ok value >>= next = next value
err error >>= next = err error
fault cause >>= next = fault cause

abbrev pub ◌>>◌ : {B : Type 0} → Outcome (Unit {0}) → Outcome B → Outcome B
before >> after = before >>= λ _. after

-- `if bad { return Err(e) }`
abbrev pub fail_if : Bool → Error → Outcome (Unit {0})
fail_if true e = err e
fail_if false e = ok tt

-- `o.ok_or(e)?`
abbrev pub ok_or : {A : Type 0} → Option A → Error → Outcome A
ok_or none e = err e
ok_or (some a) e = ok a

-- `o.unwrap()`, and an index that panics out of bounds
abbrev pub unwrap : {A : Type 0} → Option A → Outcome A
unwrap none = fault panic
unwrap (some a) = ok a

abbrev pub index : {A : Type 0} → List A → ℕ → Outcome A
index xs i = unwrap (get_elem? xs i)

-- `a / b` and `a % b` on unsigned integers
abbrev pub div : ℕ → ℕ → Outcome ℕ
div a b = if b == 0 then fault panic else ok (a / b)

abbrev pub rem : ℕ → ℕ → Outcome ℕ
rem a b = if b == 0 then fault panic else ok (a % b)

pub div-eq : (a b : ℕ) → 0 < b → div a b ≡ ok (a / b)
div-eq a b h = ground arith

pub rem-eq : (a b : ℕ) → 0 < b → rem a b ≡ ok (a % b)
rem-eq a b h = ground arith

-- Inversion of a successful bind, and of the guards.
pub >>=-eq-ok :
    {A B : Type 0} (before : Outcome A) (next : A → Outcome B) {result : B}
    → (before >>= next) ≡ ok result
    → (value : A) × (before ≡ ok value) × (next value ≡ ok result)
>>=-eq-ok (ok value) next returns = (value, refl, returns)
>>=-eq-ok (err error) next returns = cc
>>=-eq-ok (fault cause) next returns = cc

pub fail_if-eq-ok : (b : Bool) (e : Error) {u : Unit} → fail_if b e ≡ ok u → b ≡ false
fail_if-eq-ok true e h = cc
fail_if-eq-ok false e h = refl

pub ok-injective : {A : Type 0} {a b : A} → ok a ≡ ok b → a ≡ b
ok-injective h = cc

pub unwrap-eq-ok : {A : Type 0} (o : Option A) {a : A} → unwrap o ≡ ok a → o ≡ some a
unwrap-eq-ok none h = cc
unwrap-eq-ok (some a) h = cc

pub div-eq-ok : (a b : ℕ) {c : ℕ} → div a b ≡ ok c → (0 < b) × (c ≡ a / b)
div-eq-ok a zero h = absurd cc
div-eq-ok a (suc b) {c} h = (omega arith, ok-injective (sym h ∙ div-eq a (suc b) (omega arith)))
