-- ===== src/Clock/Slots.antt =====
-- The times at which the slots of a clock start, and the slots at a time.
use ethereum_consensus.Prelude.{
  ℕ, suc, ◌+◌, ◌-◌, ◌*◌, ◌%◌, ◌/◌, ◌≡◌, ◌≤◌, ◌<◌, ◌↔◌, some, none, inl, inr, refl, arith, leb, ltb,
  Bool-cases, le→ltb, u64_mod, wrapping_add,
}
use native.Mathlib.Nat.{le-div_iff_mul-le, div-lt_iff_lt-mul}
use ethereum_consensus.Types.{Slot}
use ethereum_consensus.Outcome.{ok, div, div-eq, div-eq-ok, >>=-eq-ok, ok-injective}
use ethereum_consensus.Action.{fault≢ok}
use ethereum_consensus.Clock.{
  Clock, u128_mod, slot_to_nanos, u128_to_u64, convert_timestamp_nanos_to_slot, slot_at_time,
  duration_until_next_slot, before_genesis_at, expect_slot,
}

slot_to_nanos-eq :
    (slot seconds_per_slot genesis_time : ℕ)
    → slot * seconds_per_slot + genesis_time < u128_mod
    → slot_to_nanos slot seconds_per_slot genesis_time ≡ slot * seconds_per_slot + genesis_time
unfolding slot_to_nanos
slot_to_nanos-eq slot seconds_per_slot genesis_time h = omega arith

u128_to_u64-eq-ok : (t : ℕ) {u : ℕ} → u128_to_u64 t ≡ ok u → (t < u64_mod) × (t ≡ u)
unfolding u128_to_u64
u128_to_u64-eq-ok t h = elim (Bool-cases (leb u64_mod t)) [
  | inl large ↦ absurd (fault≢ok (rw large at h))
  | inr fits ↦ (ground arith, ok-injective (rw fits at h))
]

u128_to_u64-eq : (t : ℕ) → t < u64_mod → u128_to_u64 t ≡ ok t
unfolding u128_to_u64
u128_to_u64-eq t h = ground arith

-- The times in a slot, from its start to the start of the next.
abbrev pub During : Clock → Slot → ℕ → Type 0
During clock slot t =
    (slot * clock.seconds_per_slot + clock.genesis_time ≤ t)
    × (t < suc slot * clock.seconds_per_slot + clock.genesis_time)

quotient_between :
    (delta period slot : ℕ)
    → 0 < period
    → slot * period ≤ delta
    → delta < suc slot * period
    → delta / period ≡ slot
quotient_between delta period slot positive lower upper = omega (
  arith,
  (le-div_iff_mul-le {x = slot} {y = delta} positive).1 lower,
  (div-lt_iff_lt-mul {x = delta} {y = suc slot} positive).1 upper,
)

slot_at_time-During :
    (clock : Clock) (slot t : ℕ)
    → 0 < clock.seconds_per_slot
    → slot < u64_mod
    → During clock slot t
    → slot_at_time clock t ≡ ok (some slot)
unfolding slot_at_time convert_timestamp_nanos_to_slot
slot_at_time-During clock slot t positive small (after, before) =
    let quotient =
      quotient_between (t - clock.genesis_time) clock.seconds_per_slot slot positive (omega arith)
        (omega arith) in
    rw
      (
        le→ltb t clock.genesis_time (omega arith),
        div-eq (t - clock.genesis_time) clock.seconds_per_slot positive,
        quotient,
        u128_to_u64-eq slot small,
      )
      refl

During-quotient :
    (delta period slot : ℕ)
    → 0 < period
    → slot ≡ delta / period
    → (slot * period ≤ delta) × (delta < suc slot * period)
During-quotient delta period slot positive is = (
  (le-div_iff_mul-le {x = slot} {y = delta} positive).0 (omega arith),
  (div-lt_iff_lt-mul {x = delta} {y = suc slot} positive).0 (omega arith),
)

During-slot_at_time :
    (clock : Clock) (slot t : ℕ)
    → slot_at_time clock t ≡ ok (some slot)
    → (slot < u64_mod) × During clock slot t
unfolding slot_at_time convert_timestamp_nanos_to_slot
During-slot_at_time clock slot t h = elim (Bool-cases (ltb t clock.genesis_time)) [
  | inl early ↦ let nothing : ok none ≡ ok (some slot) = rw early at h in absurd cc
  | inr late ↦
      let (count, count_is, rest) =
        >>=-eq-ok (div (t - clock.genesis_time) clock.seconds_per_slot) _ (rw late at h) in
      let (positive, quotient) = div-eq-ok _ _ count_is in
      let (found, found_is, last) = >>=-eq-ok (u128_to_u64 count) _ rest in
      let (small, same) = u128_to_u64-eq-ok count found_is in
      let here : found ≡ slot = cc in
      let (lower, upper) =
        During-quotient (t - clock.genesis_time) clock.seconds_per_slot slot positive
          (omega (arith, quotient, same, here)) in
      let reached : clock.genesis_time ≤ t = ground arith in
      (omega arith, (omega arith, omega arith))
]

-- If the slots of a clock take time, then the slot that it gives for a time is the one whose
-- interval the time is in: it starts at or before the time, and the next one starts after it. It
-- gives that slot whenever the slot is a 64-bit word, and no other.
pub slot_at_time_iff :
    (clock : Clock) (slot t : ℕ)
    → 0 < clock.seconds_per_slot
    → (slot_at_time clock t ≡ ok (some slot)) ↔ ((slot < u64_mod) × During clock slot t)
slot_at_time_iff clock slot t positive = (
  During-slot_at_time clock slot t,
  λ (small, during). slot_at_time-During clock slot t positive small during,
)

-- If the slots of a clock take time, a slot is a 64-bit word and its start a 128-bit one, then the
-- slot at the time that `slot_to_nanos` gives for the slot is the slot itself.
pub slot_at_time-slot_to_nanos :
    (clock : Clock) (slot : Slot)
    → 0 < clock.seconds_per_slot
    → slot < u64_mod
    → slot * clock.seconds_per_slot + clock.genesis_time < u128_mod
    → slot_at_time clock (slot_to_nanos slot clock.seconds_per_slot clock.genesis_time)
      ≡ ok (some slot)
slot_at_time-slot_to_nanos clock slot positive small fits =
    rw (slot_to_nanos-eq slot clock.seconds_per_slot clock.genesis_time fits)
      (slot_at_time-During clock slot _ positive small (omega arith, omega arith))

-- If a clock is in a slot, and the start of the next slot fits the words that the code holds it in,
-- then the duration until the next slot is positive and at most the time that a slot takes, and
-- after it the clock is at the start of the next slot.
pub duration_until_next_slot-lands :
    (clock : Clock) (slot t : ℕ)
    → slot_at_time clock t ≡ ok (some slot)
    → suc slot < u64_mod
    → clock.seconds_per_slot < u64_mod
    → suc slot * clock.seconds_per_slot + clock.genesis_time < u128_mod
    → (d : ℕ) × (duration_until_next_slot clock t ≡ ok d)
      × (0 < d)
      × (d ≤ clock.seconds_per_slot)
      × (t + d ≡ slot_to_nanos (suc slot) clock.seconds_per_slot clock.genesis_time)
unfolding duration_until_next_slot before_genesis_at expect_slot
duration_until_next_slot-lands clock slot t h small short fits =
    let (_, (after, before)) = During-slot_at_time clock slot t h in
    let start = slot_to_nanos-eq (suc slot) clock.seconds_per_slot clock.genesis_time fits in
    let target = suc slot * clock.seconds_per_slot + clock.genesis_time in
    let next : wrapping_add slot 1 ≡ suc slot = omega arith in
    let wait : (target + u128_mod - t) % u128_mod ≡ target - t = omega arith in
    (
      target - t,
      rw
          (
            le→ltb t clock.genesis_time (omega arith),
            h,
            next,
            start,
            wait,
            u128_to_u64-eq (target - t) (omega arith),
          )
          refl,
      omega arith,
      omega arith,
      omega (arith, start),
    )
