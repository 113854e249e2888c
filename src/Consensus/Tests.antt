-- ===== src/Consensus/Tests.antt =====
-- The theorems on work, rewards and fees, at concrete inputs.
use cytah_speed.Prelude.{
  ◌+◌, ◌≤◌, ℕ, ◌+◌, ◌<◌, ◌≤◌, ◌≡◌, ◌↔◌, refl, ◌^◌, ◌*◌, max, List, [], ◌∷◌, true, some, arith,
  length, All,
}
use cytah_speed.Samples.{sample_floats, sample_node, sample_block}
use cytah_speed.Core.Block.{Block, BlockHash}
use cytah_speed.Dag.Order.{blocks_at}
use cytah_speed.Dag.Order.Complete.{IsTopological}
use cytah_speed.Dag.IntegrityTests.{forked_dag, forked-Grown}
use cytah_speed.Consensus.Daa.{calculate_next_difficulty}
use cytah_speed.Consensus.Daa.Window.{next_difficulty, next_difficulty-eq}
use cytah_speed.Consensus.Pow.{meets_difficulty}
use cytah_speed.Consensus.Pow.Target.{be_value, IsByte, meets_difficulty_iff}
use cytah_speed.Consensus.Reward.{RewardConfig, default_config, cts_mining_supply}
use cytah_speed.Consensus.Reward.Bounds.{BlockFacts, reward_for, reward_bounds}
use cytah_speed.Consensus.Fees.{LastBlock, next_base_fee, next_base_fee-stuck}

-- A hash with exactly ten leading zero bits.
abbrev digest : List ℕ
digest = 0 ∷ 63 ∷ 255 ∷ []

digest-IsByte : All IsByte digest
digest-IsByte = (omega arith, (omega arith, (omega arith, tt)))

meets_difficulty_iff_example :
    (meets_difficulty digest 10 ≡ true) ↔ (be_value digest * 2 ^ 10 < 256 ^ length digest)
meets_difficulty_iff_example = meets_difficulty_iff digest 10 digest-IsByte (omega arith)

ten_bits : meets_difficulty digest 10 ≡ true
unfolding meets_difficulty
ten_bits = refl

abbrev config : RewardConfig sample_floats
config = default_config sample_floats

abbrev facts : BlockFacts sample_floats
facts = record { chain_progress = 3; recent_timestamps = 5 ∷ 9 ∷ []; tx_count = 12 }

reward_bounds_example :
    (499_999_990 + reward_for sample_floats config 499_999_990 facts ≤ cts_mining_supply)
    × ((reward_for sample_floats config 499_999_990 facts ≡ 0) ↔ (499_999_990 ≡ cts_mining_supply))
reward_bounds_example = reward_bounds sample_floats config 499_999_990 facts (omega arith)

abbrev full_block : LastBlock
full_block = record { base_fee = 40; tx_count = 501 }

abbrev cheap_block : LastBlock
cheap_block = record { base_fee = 1; tx_count = 900 }

next_base_fee-stuck_example : next_base_fee (some cheap_block) ≡ max 1 1
next_base_fee-stuck_example = next_base_fee-stuck cheap_block (omega arith)

abbrev later : Block
later = record (sample_block 2 1 (1 ∷ [])) {
  header = record (sample_block 2 1 (1 ∷ [])).header { timestamp = 903 };
}

next_difficulty-eq_example :
    (order : List BlockHash) × IsTopological forked_dag.store order
    × (next_difficulty sample_floats forked_dag
        ≡ some (calculate_next_difficulty sample_floats (blocks_at order forked_dag.store)))
next_difficulty-eq_example = next_difficulty-eq sample_floats sample_node forked_dag forked-Grown
