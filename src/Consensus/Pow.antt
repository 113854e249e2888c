-- ===== src/Consensus/Pow.antt =====
-- Proof of work (`meets_difficulty` in src/consensus/mining.rs): a hash is its 32 bytes, and the
-- difficulty asks for leading zero bits.
pub mod Target
use cytah_speed.Prelude.{
  ℕ, ◌-◌, ◌*◌, ◌/◌, ◌%◌, ◌^◌, Bool, true, false, not, Option, none, some, List, ◌==◌, ltb,
  if◌then◌else◌, any, take, get_elem?,
}
use Prim.Native.Nat.{bit_and}

-- `0xFF << (8 - rem_bits)` on `u8`.
unfoldable pub bit_mask : ℕ → ℕ
bit_mask rem_bits = (255 * 2 ^ (8 - rem_bits)) % 256

-- `map_or(true, |&b| b & mask != 0)`
unfoldable pub rem_bits_set : ℕ → Option ℕ → Bool
unfolding bit_mask
rem_bits_set rem_bits none = true
rem_bits_set rem_bits (some b) = not (bit_and b (bit_mask rem_bits) == 0)

-- The two tests, after the bytes and the bits are counted.
unfoldable pub has_zero_bits : List ℕ → ℕ → ℕ → Bool
unfolding rem_bits_set
has_zero_bits hash zero_bytes rem_bits =
    if any (λ b. not (b == 0)) (take zero_bytes hash)
    then false
    else if ltb 0 rem_bits
    then (if rem_bits_set rem_bits (get_elem? hash zero_bytes) then false else true)
    else true

unfoldable pub meets_difficulty : List ℕ → ℕ → Bool
unfolding has_zero_bits
meets_difficulty hash difficulty =
    if difficulty == 0 then true else has_zero_bits hash (difficulty / 8) (difficulty % 8)
