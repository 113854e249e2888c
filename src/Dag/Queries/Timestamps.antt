-- ===== src/Dag/Queries/Timestamps.antt =====
-- The two ways to collect timestamps agree.
use cytah_speed.Prelude.{
  ℕ, zero, suc, ◌≡◌, refl, ap, ◌∙◌, none, some, List, [], ◌∷◌, arith, Table, get, Option-cases, inl,
  inr,
}
use cytah_speed.Core.Block.{BlockHash, Block}
use cytah_speed.Dag.Engine.{BlockDag}
use cytah_speed.Dag.Order.{blocks_at}
use cytah_speed.Dag.Queries.{
  timestamps_back, timestamps_of, get_timestamps_from_start, get_recent_timestamps, get_tip_blocks,
}

timestamps_back_absent :
    (store : Table Block) (n : ℕ) (h : BlockHash)
    → get h store ≡ none
    → timestamps_back store n h ≡ []
unfolding timestamps_back
timestamps_back_absent store zero h absent = refl
timestamps_back_absent store (suc n) h absent = ground (arith, absent)

timestamps_of-eq :
    (store : Table Block) (n : ℕ) (h : BlockHash) (b : Block)
    → get h store ≡ some b
    → timestamps_of store n b ≡ timestamps_back store n h
unfolding timestamps_of timestamps_back
timestamps_of-eq store zero h b found = refl
timestamps_of-eq store (suc n) h b found = elim (Option-cases b.header.selected_parent) [
  | inl alone ↦ ground (arith, found, alone)
  | inr (p, selected) ↦ elim (Option-cases (get p store)) [
    | inl absent ↦ ground (arith, found, selected, absent, timestamps_back_absent store n p absent)
    | inr (q, stored) ↦ ground (arith, found, selected, stored, timestamps_of-eq store n p q stored)
  ]
]

-- If the first tip of the index is stored, then `get_recent_timestamps`, which goes from block to
-- block, and `get_timestamps_from_start` from that tip, which goes from hash to hash, collect the
-- same timestamps, for every limit on their number.
pub get_recent_timestamps-eq :
    (dag : BlockDag) (limit : ℕ) (tip : BlockHash) (rest : List BlockHash) (b : Block)
    → dag.index.tips ≡ tip ∷ rest
    → get tip dag.store ≡ some b
    → get_recent_timestamps dag limit ≡ get_timestamps_from_start dag.store tip limit
unfolding get_recent_timestamps get_timestamps_from_start get_tip_blocks blocks_at
get_recent_timestamps-eq dag limit tip rest b tips found =
    let first : get_tip_blocks dag ≡ b ∷ blocks_at rest dag.store =
      ap (λ (l : List BlockHash). blocks_at l dag.store) tips ∙ ground (arith, found) in
    ground (arith, first, timestamps_of-eq dag.store limit tip b found)
