-- ===== src/Consensus/Daa/Timespan.antt =====
-- The time that a window of blocks counts for.
use cytah_speed.Prelude.{
  ℕ, ◌+◌, ◌-◌, ◌*◌, ◌≤◌, ◌<◌, ◌≡◌, min, List, [], ◌∷◌, arith, length, u64_max, saturating_add, ltb,
  if◌then◌else◌,
}
use cytah_speed.Core.Block.{Block}
use cytah_speed.Consensus.Daa.{add_gaps, actual_timespan, max_gap}

-- The timestamp of the last block, or of the one before the list.
abbrev pub last_timestamp : ℕ → List Block → ℕ
last_timestamp ts [] = ts
last_timestamp ts (b ∷ bs) = last_timestamp b.header.timestamp bs

-- Every block follows the one before it after at most four seconds.
abbrev pub IsSteady : ℕ → List Block → Type 0
IsSteady ts [] = Unit
IsSteady ts (b ∷ bs) =
    ((ts ≤ b.header.timestamp) × (b.header.timestamp ≤ ts + 4)) × IsSteady b.header.timestamp bs

add_gaps-le : (ts actual : ℕ) (bs : List Block) → add_gaps ts actual bs ≤ actual + 4 * length bs
unfolding add_gaps
add_gaps-le ts actual [] = omega arith
add_gaps-le ts actual (b ∷ bs) =
    let delta = if ltb ts b.header.timestamp then b.header.timestamp - ts else 0 in
    let rest = add_gaps-le b.header.timestamp (saturating_add actual (min delta max_gap)) bs in
    omega (arith, rest)

add_gaps-steady :
    (ts actual : ℕ) (bs : List Block)
    → IsSteady ts bs
    → actual + 4 * length bs < u64_max
    → add_gaps ts actual bs + ts ≡ actual + last_timestamp ts bs
unfolding add_gaps
add_gaps-steady ts actual [] steady small = omega arith
add_gaps-steady ts actual (b ∷ bs) steady small =
    ground
      (arith, add_gaps-steady b.header.timestamp (actual + (b.header.timestamp - ts)) bs steady.1)

-- The time of a window is at most four seconds for each block after the first, whatever the
-- timestamps. If every block comes zero to four seconds after the one before it, it is exactly
-- the time between the first and the last block. (The window has fewer than 2^62 blocks.)
pub actual_timespan_exact :
    (b : Block) (bs : List Block)
    → 4 * length bs < u64_max
    → (actual_timespan (b ∷ bs) ≤ 4 * length bs)
      × (IsSteady b.header.timestamp bs
          → actual_timespan (b ∷ bs) + b.header.timestamp ≡ last_timestamp b.header.timestamp bs)
unfolding actual_timespan
actual_timespan_exact b bs small = (
  omega (arith, add_gaps-le b.header.timestamp 0 bs),
  λ steady. omega (arith, add_gaps-steady b.header.timestamp 0 bs steady (omega arith)),
)
