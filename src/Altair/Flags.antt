-- ===== src/Altair/Flags.antt =====
-- ethereum-consensus/src/altair/helpers.rs: `add_flag` and `has_flag`, on the bits of a byte.
pub mod Laws
use Prim.Native.Nat.{bit_and, bit_or}
use ethereum_consensus.Prelude.{ℕ, ◌%◌, ◌^◌, Bool, ◌==◌}
use ethereum_consensus.Types.Altair.{ParticipationFlags}

-- `2u8.pow(flag_index)`
unfoldable pub flag_bit : ℕ → ParticipationFlags
flag_bit flag_index = 2 ^ flag_index % 2 ^ 8

unfoldable pub add_flag : ParticipationFlags → ℕ → ParticipationFlags
add_flag flags flag_index = bit_or flags (flag_bit flag_index)

unfoldable pub has_flag : ParticipationFlags → ℕ → Bool
has_flag flags flag_index = bit_and flags (flag_bit flag_index) == flag_bit flag_index
