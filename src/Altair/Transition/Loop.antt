-- ===== src/Altair/Transition/Loop.antt =====
-- The loop of `process_slots`, over the state of any fork: an invariant that each turn carries to the
-- next slot holds at the target.
use ethereum_consensus.Prelude.{
  ℕ, zero, suc, ◌≡◌, ◌≤◌, ◌<◌, false, ap, inl, inr, arith, ltb, ltb→lt, u64_mod, wrapping_add,
  Bool-cases, if◌then◌else◌,
}
use ethereum_consensus.Types.{Slot}
use ethereum_consensus.Outcome.{Outcome, ok, fault, out_of_fuel}
use ethereum_consensus.Action.{StateAction, fault≢ok, >>=-eq-ok, ◌>>◌}
use ethereum_consensus.Action.Keeps.{Ensures}
use mathlib.Core.Path.{subst}

-- What the two clauses of such a loop say.
pub record IsSlotLoop {S : Type 0} (slot_of : S → Slot) (advance : StateAction S (Unit {0}))
    (loop : ℕ → StateAction S (Unit {0})) (target : Slot) : Type 0 where
  pub on_zero :
      (s : S) → loop 0 s ≡ (if ltb (slot_of s) target then (fault out_of_fuel, s) else (ok tt, s))
  pub on_suc :
      (fuel : ℕ) (s : S)
      → loop (suc fuel) s
        ≡ (if ltb (slot_of s) target then (advance >> loop fuel) s else (ok tt, s))

module _ {S : Type 0} {slot_of : S → Slot} {advance : StateAction S (Unit {0})}
    {loop : ℕ → StateAction S (Unit {0})} {target : Slot} {P : Slot → S → Type 0}
    (is_loop : IsSlotLoop slot_of advance loop target)
    (slot_is : (n : Slot) (s : S) → P n s → slot_of s ≡ n)
    (advances : (n : Slot) → Ensures (P n) (P (wrapping_add n 1)) advance)
    (small : target < u64_mod) where
  stopped :
      (n : Slot) (s s' : S)
      → P n s
      → n ≤ target
      → ltb (slot_of s) target ≡ false
      → s ≡ s'
      → P target s'
  stopped n s s' valid before stops same =
      let arrived : n ≡ target = ground (arith, slot_is n s valid) in
      subst (P target) same (subst (λ m. P m s) arrived valid)

  pub slot_loop-lands :
      (fuel : ℕ) (n : Slot) (s s' : S)
      → P n s
      → n ≤ target
      → loop fuel s ≡ (ok tt, s')
      → P target s'
  slot_loop-lands zero n s s' valid before h = elim (Bool-cases (ltb (slot_of s) target)) [
    | inl goes ↦ absurd (fault≢ok (ap (λ p. p.0) (rw (is_loop.on_zero s, goes) at h)))
    | inr stops ↦
        let done : (ok tt, s) ≡ (ok tt, s') = rw (is_loop.on_zero s, stops) at h in
        stopped n s s' valid before stops (ap (λ p. p.1) done)
  ]
  slot_loop-lands (suc fuel) n s s' valid before h = elim (Bool-cases (ltb (slot_of s) target)) [
    | inl goes ↦
        let (u, s₁, first, later) =
          >>=-eq-ok advance (λ _. loop fuel) s (rw (is_loop.on_suc fuel s, goes) at h) in
        let next = (advances n).at s valid u (ap (λ p. p.0) first) in
        let next' : P (wrapping_add n 1) s₁ =
          rw (ap (λ (p : Outcome (Unit {0}) × S). p.1) first) at next in
        let early : n < target = omega (arith, ltb→lt _ _ goes, slot_is n s valid) in
        slot_loop-lands fuel (wrapping_add n 1) s₁ s' next' (omega (arith, early, small)) later
    | inr stops ↦
        let done : (ok tt, s) ≡ (ok tt, s') = rw (is_loop.on_suc fuel s, stops) at h in
        stopped n s s' valid before stops (ap (λ p. p.1) done)
  ]
