-- ===== src/Consensus/Reward/Bounds.antt =====
-- Bounds on the reward that hold whatever the floating-point steps return.
use cytah_speed.Prelude.{ℕ, ◌+◌, ◌≤◌, ◌≡◌, ◌↔◌, List, arith}
use cytah_speed.Consensus.Reward.{
  Floats, RewardConfig, calculate_expected_block_reward, cts_mining_supply,
}

-- What goes into one block's reward, besides the supply emitted so far.
pub record BlockFacts (fl : Floats) : Type 0 where
  pub chain_progress : fl.F64
  pub recent_timestamps : List ℕ
  pub tx_count : ℕ

module _ (fl : Floats) (config : RewardConfig fl) where
  abbrev pub reward_for : ℕ → BlockFacts fl → ℕ
  reward_for emitted b =
      calculate_expected_block_reward fl emitted b.chain_progress b.recent_timestamps b.tx_count
        config

  -- Whatever the floating-point functions return, and for an emitted supply of at most
  -- 500 000 000: with the reward that `calculate_expected_block_reward` gives for that supply
  -- the supply stays within 500 000 000, and the reward is zero exactly if all is emitted.
  pub reward_bounds :
      (emitted : ℕ) (b : BlockFacts fl)
      → emitted ≤ cts_mining_supply
      → (emitted + reward_for emitted b ≤ cts_mining_supply)
        × ((reward_for emitted b ≡ 0) ↔ (emitted ≡ cts_mining_supply))
  unfolding calculate_expected_block_reward
  reward_bounds emitted b h = (ground arith, (λ e. ground arith, λ e. ground arith))
