-- ===== src/Consensus/Fees.antt =====
-- The fee market (src/consensus/fee_market.rs).
use cytah_speed.Prelude.{
  ℕ, ◌+◌, ◌*◌, ◌/◌, ◌%◌, ◌≤◌, ◌<◌, ◌≡◌, max, Option, none, some, arith, ltb, if◌then◌else◌,
  saturating_sub, u64_mod,
}

abbrev pub base_fee_min : ℕ
base_fee_min = 1

abbrev pub base_fee_target : ℕ
base_fee_target = 1000

-- `prev_base * PERCENT / 100` on `u64`, in a release build.
abbrev pub ten_percent : ℕ → ℕ
ten_percent fee = (fee * 10) % u64_mod / 100

-- What `next_base_fee` reads from the last block of the order.
pub record LastBlock : Type 0 where
  pub base_fee : ℕ
  pub tx_count : ℕ

unfoldable pub next_base_fee : Option LastBlock → ℕ
next_base_fee none = base_fee_min
next_base_fee (some b) =
    let prev_base = max b.base_fee base_fee_min in
    let new_fee =
      if ltb base_fee_target (b.tx_count * 2)
      then (prev_base + ten_percent prev_base) % u64_mod
      else saturating_sub prev_base (ten_percent prev_base) in
    max new_fee base_fee_min

-- For a base fee below 10^18 (so that nothing overflows), the next base fee is at least 1; after
-- a block with more than 500 transactions it is the old one (at least 1) plus a tenth of it,
-- rounded down, and otherwise the old one minus a tenth of it, rounded down.
pub next_base_fee-step :
    (b : LastBlock)
    → b.base_fee < 1_000_000_000_000_000_000
    → (1 ≤ next_base_fee (some b))
      × (500 < b.tx_count → next_base_fee (some b) ≡ max b.base_fee 1 + max b.base_fee 1 / 10)
      × (b.tx_count ≤ 500 → next_base_fee (some b) + max b.base_fee 1 / 10 ≡ max b.base_fee 1)
unfolding next_base_fee
next_base_fee-step b h = (ground arith, λ full. ground arith, λ empty. ground arith)

-- A fee below 10 never rises: a tenth of it rounds down to nothing, so from the minimum fee of 1
-- full blocks leave the fee where it is.
pub next_base_fee-stuck :
    (b : LastBlock) → b.base_fee < 10 → next_base_fee (some b) ≡ max b.base_fee 1
unfolding next_base_fee
next_base_fee-stuck b h = ground arith
