-- ===== src/Tests/Clock.antt =====
-- The theorems about the clock and the forks at concrete inputs.
use ethereum_consensus.Prelude.{◌+◌, ◌≡◌, ◌≤◌, ◌<◌, ◌↔◌, some, refl, arith, u64_mod, ℕ}
use ethereum_consensus.Outcome.{ok}
use ethereum_consensus.Clock.{Clock, slot_to_nanos, slot_at_time, duration_until_next_slot}
use ethereum_consensus.Clock.Slots.{
  During, slot_at_time_iff, slot_at_time-slot_to_nanos, duration_until_next_slot-lands,
}
use ethereum_consensus.Forks.{altair, bellatrix, fork_for}
use ethereum_consensus.Tests.Run.{run}
use ethereum_consensus.Tests.Samples.{context}

-- Slots of twelve units of time from the time 100 on.
abbrev clock : Clock
clock = record { genesis_time = 100; seconds_per_slot = 12; slots_per_epoch = 4 }

slot_at_time_iff_example :
    (slot_at_time clock 130 ≡ ok (some 2)) ↔ ((2 < u64_mod) × During clock 2 130)
slot_at_time_iff_example = slot_at_time_iff clock 2 130 (omega arith)

slot_at_time-slot_to_nanos_example : slot_at_time clock (slot_to_nanos 7 12 100) ≡ ok (some 7)
slot_at_time-slot_to_nanos_example =
    slot_at_time-slot_to_nanos clock 7 (omega arith) (omega arith) (omega arith)

at_130 : slot_at_time clock 130 ≡ ok (some 2)
unfolding run
at_130 = refl

duration_until_next_slot-lands_example :
    (d : ℕ) × (duration_until_next_slot clock 130 ≡ ok d)
    × (0 < d)
    × (d ≤ 12)
    × (130 + d ≡ slot_to_nanos 3 12 100)
duration_until_next_slot-lands_example =
    duration_until_next_slot-lands clock 2 130 at_130 (omega arith) (omega arith) (omega arith)

fork_20 : fork_for 20 context ≡ ok altair
unfolding run
fork_20 = refl

fork_40 : fork_for 40 context ≡ ok bellatrix
unfolding run
fork_40 = refl
