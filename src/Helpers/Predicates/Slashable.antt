-- ===== src/Helpers/Predicates/Slashable.antt =====
-- Which pairs of attestations are slashable.
use ethereum_consensus.Prelude.{
  ◌≡◌, ◌≢◌, ◌<◌, ◌⊎◌, ◌↔◌, inl, inr, sym, ◌∙◌, true, false, arith, ◌==◌, Bool-cases, ==_refl,
}
use ethereum_consensus.Prelude.Bytes.{bytes_eq_sound, bytes_eq_refl}
use ethereum_consensus.Types.{Checkpoint, AttestationData, checkpoint_eq, attestation_data_eq}
use ethereum_consensus.Helpers.Predicates.{is_slashable_attestation_data}

checkpoint_eq_sound : (a b : Checkpoint) → checkpoint_eq a b ≡ true → a ≡ b
unfolding checkpoint_eq
checkpoint_eq_sound a b h =
    let epochs : a.epoch ≡ b.epoch = ground arith in
    let roots : a.root ≡ b.root = bytes_eq_sound a.root b.root (ground arith) in
    λ i. record { epoch = epochs i; root = roots i }

checkpoint_eq_refl : (a : Checkpoint) → checkpoint_eq a a ≡ true
unfolding checkpoint_eq
checkpoint_eq_refl a = rw (==_refl a.epoch) (bytes_eq_refl a.root)

attestation_data_eq_sound : (a b : AttestationData) → attestation_data_eq a b ≡ true → a ≡ b
unfolding attestation_data_eq
attestation_data_eq_sound a b h =
    let slots : a.slot ≡ b.slot = ground arith in
    let indices : a.index ≡ b.index = ground arith in
    let roots : a.beacon_block_root ≡ b.beacon_block_root = bytes_eq_sound _ _ (ground arith) in
    let sources : a.source ≡ b.source = checkpoint_eq_sound _ _ (ground arith) in
    let targets : a.target ≡ b.target = checkpoint_eq_sound _ _ (ground arith) in
    λ i. record {
      slot = slots i;
      index = indices i;
      beacon_block_root = roots i;
      source = sources i;
      target = targets i;
    }

attestation_data_eq_refl : (a : AttestationData) → attestation_data_eq a a ≡ true
unfolding attestation_data_eq
attestation_data_eq_refl a =
    rw
      (
        ==_refl a.slot,
        ==_refl a.index,
        bytes_eq_refl a.beacon_block_root,
        checkpoint_eq_refl a.source,
      )
      (checkpoint_eq_refl a.target)

differ : (a b : AttestationData) → attestation_data_eq a b ≡ false → a ≢ b
differ a b h same = let clash : true ≡ false = sym (rw same (attestation_data_eq_refl b)) ∙ h in cc

-- A double vote, for two different things with one target epoch.
abbrev pub DoubleVote : AttestationData → AttestationData → Type 0
DoubleVote a b = (a ≢ b) × (a.target.epoch ≡ b.target.epoch)

-- A vote whose span from source to target has that of the other strictly inside.
abbrev pub Surrounds : AttestationData → AttestationData → Type 0
Surrounds a b = (a.source.epoch < b.source.epoch) × (b.target.epoch < a.target.epoch)

-- Two attestations are slashable exactly if they are a double vote or the first surrounds the
-- second.
pub is_slashable_attestation_data_iff :
    (a b : AttestationData)
    → (is_slashable_attestation_data a b ≡ true) ↔ (DoubleVote a b ⊎ Surrounds a b)
unfolding is_slashable_attestation_data
is_slashable_attestation_data_iff a b = (
  λ slashable. elim (Bool-cases (attestation_data_eq a b)) [
    | inl same ↦ inr (ground arith, ground arith)
    | inr different ↦ elim (Bool-cases (a.target.epoch == b.target.epoch)) [
      | inl together ↦ inl (differ a b different, ground arith)
      | inr apart ↦ inr (ground arith, ground arith)
    ]
  ],
  λ found. elim found [
    | inl (different, together) ↦ elim (Bool-cases (attestation_data_eq a b)) [
      | inl same ↦ absurd (different (attestation_data_eq_sound a b same))
      | inr distinct ↦ ground arith
    ]
    | inr (inside, outside) ↦ ground arith
  ],
)
