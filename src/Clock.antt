-- ===== src/Clock.antt =====
-- ethereum-consensus/src/clock.rs: the clock, in nanoseconds. What a `TimeProvider` returns is an
-- argument here. Durations are numbers of nanoseconds.
pub mod Slots
use ethereum_consensus.Prelude.{
  ℕ, suc, ◌+◌, ◌-◌, ◌*◌, ◌%◌, ◌/◌, ◌^◌, Bool, Option, none, some, leb, ltb, if◌then◌else◌, u64_mod,
  wrapping_add,
}
use ethereum_consensus.Types.{Slot, Epoch}
use ethereum_consensus.Outcome.{Outcome, ok, fault, panic, div, ◌>>=◌}

abbrev pub u128_mod : ℕ
u128_mod = 2 ^ 128

abbrev pub nanos_per_second : ℕ
nanos_per_second = 1000000000

-- `Inner`, less the provider of the time
pub record Clock : Type 0 where
  pub genesis_time : ℕ
  pub seconds_per_slot : ℕ
  pub slots_per_epoch : Slot

unfoldable pub slot_to_nanos : Slot → (seconds_per_slot genesis_time : ℕ) → ℕ
slot_to_nanos slot seconds_per_slot genesis_time =
    ((slot * seconds_per_slot) % u128_mod + genesis_time) % u128_mod

unfoldable pub u128_to_u64 : ℕ → Outcome ℕ
u128_to_u64 t = if leb u64_mod t then fault panic else ok t

unfoldable pub convert_timestamp_to_slot :
    (timestamp genesis_time seconds_per_slot : ℕ) → Outcome (Option Slot)
convert_timestamp_to_slot timestamp genesis_time seconds_per_slot =
    if ltb timestamp genesis_time
    then ok none
    else do slot ← div (timestamp - genesis_time) seconds_per_slot; ok (some slot)

unfoldable pub convert_timestamp_nanos_to_slot :
    (timestamp genesis_time seconds_per_slot : ℕ) → Outcome (Option Slot)
convert_timestamp_nanos_to_slot timestamp genesis_time seconds_per_slot =
    if ltb timestamp genesis_time then ok none else (do
      count ← div (timestamp - genesis_time) seconds_per_slot
      slot ← u128_to_u64 count
      ok (some slot))

-- `Clock::new`
unfoldable pub new_clock : (genesis_time seconds_per_slot : ℕ) → Slot → Clock
new_clock genesis_time seconds_per_slot slots_per_epoch = record {
  genesis_time = genesis_time * nanos_per_second;
  seconds_per_slot = seconds_per_slot * nanos_per_second;
  slots_per_epoch = slots_per_epoch;
}

-- `Option::expect`
unfoldable pub expect_slot : Option Slot → Outcome Slot
expect_slot none = fault panic
expect_slot (some slot) = ok slot

module _ (clock : Clock) where
  open clock use {genesis_time, seconds_per_slot, slots_per_epoch}

  unfoldable pub before_genesis_at : ℕ → Bool
  before_genesis_at current_time = ltb current_time genesis_time

  unfoldable pub slot_at_time : ℕ → Outcome (Option Slot)
  slot_at_time current_time =
      convert_timestamp_nanos_to_slot current_time genesis_time seconds_per_slot

  unfoldable pub epoch_for : Slot → Outcome Epoch
  epoch_for slot = div slot slots_per_epoch

  -- `self.current_slot()?`, then the epoch of the slot
  unfoldable pub epoch_of : Option Slot → Outcome (Option Epoch)
  epoch_of none = ok none
  epoch_of (some slot) = do epoch ← epoch_for slot; ok (some epoch)

  unfoldable pub current_epoch : ℕ → Outcome (Option Epoch)
  current_epoch current_time = do slot ← slot_at_time current_time; epoch_of slot

  unfoldable pub duration_until_slot : Slot → ℕ → Outcome ℕ
  duration_until_slot slot current_time =
      let target = slot_to_nanos slot seconds_per_slot genesis_time in
      if ltb target current_time then ok 0 else u128_to_u64 (target - current_time)

  unfoldable pub duration_until_next_slot : ℕ → Outcome ℕ
  duration_until_next_slot current_time =
      if before_genesis_at current_time then u128_to_u64 (genesis_time - current_time) else (do
        found ← slot_at_time current_time
        current_slot ← expect_slot found
        let target = slot_to_nanos (wrapping_add current_slot 1) seconds_per_slot genesis_time
        u128_to_u64 ((target + u128_mod - current_time) % u128_mod))
