-- ===== src/Shape.antt =====
-- What no step inside a slot changes: the slot itself, the lengths of the fixed vectors, and that
-- every validator has a balance.
use ethereum_consensus.Prelude.{ℕ, ◌≡◌, refl, length}
use ethereum_consensus.Types.{Slot, BeaconState}

pub record Shape : Type 0 where
  pub slot : Slot
  pub block_roots : ℕ
  pub state_roots : ℕ
  pub randao_mixes : ℕ
  pub slashings : ℕ

pub record HasShape (k : Shape) (s : BeaconState) : Type 0 where
  pub slot_is : s.slot ≡ k.slot
  pub block_roots_is : length s.block_roots ≡ k.block_roots
  pub state_roots_is : length s.state_roots ≡ k.state_roots
  pub randao_mixes_is : length s.randao_mixes ≡ k.randao_mixes
  pub slashings_is : length s.slashings ≡ k.slashings
  pub balances_is : length s.balances ≡ length s.validators

abbrev pub shape_of : BeaconState → Shape
shape_of s = record {
  slot = s.slot;
  block_roots = length s.block_roots;
  state_roots = length s.state_roots;
  randao_mixes = length s.randao_mixes;
  slashings = length s.slashings;
}

pub HasShape-shape_of :
    (s : BeaconState) → length s.balances ≡ length s.validators → HasShape (shape_of s) s
HasShape-shape_of s h = record {
  slot_is = refl;
  block_roots_is = refl;
  state_roots_is = refl;
  randao_mixes_is = refl;
  slashings_is = refl;
  balances_is = h;
}
