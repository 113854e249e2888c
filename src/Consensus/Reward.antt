-- ===== src/Consensus/Reward.antt =====
-- Mining rewards (src/consensus/mining.rs). Floating-point numbers and their functions are a
-- parameter; the integer steps around them are the source's.
pub mod Bounds
use cytah_speed.Prelude.{
  ℕ, zero, suc, ◌-◌, max, Bool, List, [], ◌∷◌, length, ◌==◌, ltb, if◌then◌else◌, saturating_sub,
}

abbrev pub cts_max_supply : ℕ
cts_max_supply = 600_000_000

abbrev pub cts_genesis_allocation : ℕ
cts_genesis_allocation = 100_000_000

abbrev pub cts_mining_supply : ℕ
cts_mining_supply = cts_max_supply - cts_genesis_allocation

abbrev pub cts_initial_reward : ℕ
cts_initial_reward = 100

abbrev pub cts_minimum_reward : ℕ
cts_minimum_reward = 1

-- `f64`: literals as fractions, the conversions `as f64` and `as u64`, and the operations used.
pub record Floats : Type 1 where
  pub F64 : Type 0
  pub fraction : ℕ → ℕ → F64
  pub from_u64 : ℕ → F64
  pub to_u64 : F64 → ℕ
  pub add : F64 → F64 → F64
  pub sub : F64 → F64 → F64
  pub mul : F64 → F64 → F64
  pub div : F64 → F64 → F64
  pub neg : F64 → F64
  pub exp : F64 → F64
  pub round : F64 → F64
  pub max_f64 : F64 → F64 → F64
  pub min_f64 : F64 → F64 → F64
  pub lt_f64 : F64 → F64 → Bool

-- `last().unwrap()` of a list with a first element.
unfoldable pub last_or : ℕ → List ℕ → ℕ
last_or x [] = x
last_or x (y ∷ ys) = last_or y ys

module _ (fl : Floats) where
  open fl use {F64, fraction, from_u64, to_u64, add, mul, div, neg, exp, max_f64, min_f64}

  pub record RewardConfig : Type 0 where
    pub target_blocks_per_minute : F64
    pub activity_window_size : ℕ
    pub max_multiplier : F64
    pub min_multiplier : F64

  -- `RewardConfig::default`
  unfoldable pub default_config : RewardConfig
  default_config = record {
    target_blocks_per_minute = fraction 2 1;
    activity_window_size = 144;
    max_multiplier = fraction 2 1;
    min_multiplier = fraction 1 2;
  }

  unfoldable pub calculate_activity_multiplier : List ℕ → RewardConfig → F64
  calculate_activity_multiplier [] config = fraction 1 1
  calculate_activity_multiplier (t ∷ []) config = fraction 1 1
  calculate_activity_multiplier (t ∷ u ∷ ts) config =
      let time_window = saturating_sub (last_or u ts) t in
      let actual_rate =
        div (from_u64 (length (t ∷ u ∷ ts))) (div (from_u64 time_window) (fraction 60 1)) in
      let multiplier = div config.target_blocks_per_minute actual_rate in
      if time_window == 0
      then config.max_multiplier
      else min_f64 (max_f64 multiplier config.min_multiplier) config.max_multiplier

  unfoldable pub calculate_base_reward : F64 → ℕ
  calculate_base_reward chain_progress =
      let decay = exp (mul (neg (fraction 1 1_000_000)) chain_progress) in
      let decayed_reward = mul (from_u64 cts_initial_reward) decay in
      max (to_u64 decayed_reward) cts_minimum_reward

  unfoldable pub calculate_expected_block_reward : ℕ → F64 → List ℕ → ℕ → RewardConfig → ℕ
  calculate_expected_block_reward emitted_supply chain_progress recent_timestamps tx_count config =
      let base_reward = calculate_base_reward chain_progress in
      let activity_multiplier = calculate_activity_multiplier recent_timestamps config in
      let tx_factor =
        div (fraction 1 1) (add (fraction 1 1) (div (from_u64 tx_count) (fraction 1000 1))) in
      let reward =
        max (to_u64 (mul (mul (from_u64 base_reward) activity_multiplier) tx_factor))
          cts_minimum_reward in
      let remaining_supply = saturating_sub cts_mining_supply emitted_supply in
      if remaining_supply == 0
      then 0
      else if ltb remaining_supply reward
      then remaining_supply
      else reward

  -- The legacy reward that `Block::new` and `validate_basic` use.
  unfoldable pub calculate_reward : ℕ → ℕ
  unfolding calculate_expected_block_reward
  calculate_reward tx_count =
      calculate_expected_block_reward 0 (fraction 0 1) [] tx_count default_config
