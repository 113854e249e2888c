-- ===== src/Consensus/Daa.antt =====
-- The adjustment of the difficulty (`calculate_next_difficulty` in src/consensus/daa.rs).
-- Floating-point numbers are a parameter.
pub mod Timespan
pub mod Window
use cytah_speed.Prelude.{
  ℕ, ◌-◌, ◌*◌, min, Option, none, some, List, [], ◌∷◌, ltb, if◌then◌else◌, length, drop,
  saturating_add,
}
use cytah_speed.Core.Block.{Block}
use cytah_speed.Consensus.Reward.{Floats}

abbrev pub daa_window : ℕ
daa_window = 263

abbrev pub target_block_time : ℕ
target_block_time = 1

abbrev pub max_gap : ℕ
max_gap = target_block_time * 4

-- `recent.last()`
abbrev pub last_block : List Block → Option Block
last_block [] = none
last_block (b ∷ []) = some b
last_block (b ∷ c ∷ bs) = last_block (c ∷ bs)

-- The loop over the window, after its first block.
unfoldable pub add_gaps : ℕ → ℕ → List Block → ℕ
add_gaps prev_ts actual [] = actual
add_gaps prev_ts actual (b ∷ bs) =
    let ts = b.header.timestamp in
    let delta = if ltb prev_ts ts then ts - prev_ts else 0 in
    add_gaps ts (saturating_add actual (min delta max_gap)) bs

-- The clamped time between the first and the last block of a window.
unfoldable pub actual_timespan : List Block → ℕ
unfolding add_gaps
actual_timespan [] = 0
actual_timespan (b ∷ bs) = add_gaps b.header.timestamp 0 bs

module _ (fl : Floats) where
  open fl use {F64, fraction, from_u64, to_u64, mul, div, round, lt_f64}

  -- Below low, then above high.
  unfoldable pub clamp : F64 → F64 → F64 → F64
  clamp low high x = if lt_f64 x low then low else if lt_f64 high x then high else x

  -- The rounded product, between 1 and `u32::MAX`; the tests stand one after the other.
  unfoldable pub scale_difficulty : ℕ → F64 → ℕ
  scale_difficulty difficulty ratio =
      let next = round (mul (from_u64 difficulty) ratio) in
      let raised = if lt_f64 next (fraction 1 1) then fraction 1 1 else next in
      let most = from_u64 4_294_967_295 in to_u64 (if lt_f64 most raised then most else raised)

  unfoldable pub calculate_next_difficulty : List Block → ℕ
  unfolding actual_timespan clamp scale_difficulty
  calculate_next_difficulty blocks =
      if ltb (length blocks) daa_window
      then elim (last_block blocks) [ none ↦ 1 | some b ↦ b.header.difficulty ]
      else (let recent = drop (length blocks - daa_window) blocks in
          let expected = from_u64 (daa_window * target_block_time) in
          let ratio = div (from_u64 (actual_timespan recent)) expected in
          elim (last_block recent) [
            | none ↦ 1
            | some b ↦
                scale_difficulty b.header.difficulty (clamp (fraction 1 4) (fraction 4 1) ratio)
          ])
