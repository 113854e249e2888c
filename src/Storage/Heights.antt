-- ===== src/Storage/Heights.antt =====
-- Blocks by their height (`get_blocks_by_height_range` in src/storage/block_store.rs) and the
-- figures of the store (`get_stats`), for a database whose reads succeed: the branches for an
-- error of the iterator or of a read are left out.
pub mod Sorted
pub mod Range
use cytah_speed.Prelude.{
  ℕ, ◌+◌, Bool, ◌&&◌, Option, none, some, List, [], ◌∷◌, leb, if◌then◌else◌, length, Table, get,
  values,
}
use cytah_speed.Core.Block.{BlockHash, Block}
use cytah_speed.Storage.BlockStore.{BlockStore, BlockMetadata, get_block, get_all_hashes}

unfoldable pub get_block_metadata : BlockHash → BlockStore → Option BlockMetadata
get_block_metadata h s = get h s.metadata

-- `blocks.sort_by_key(|b| b.height)`, which is stable.
unfoldable pub put_by_height : Block → List Block → List Block
put_by_height b [] = b ∷ []
put_by_height b (c ∷ cs) =
    let rest = put_by_height b cs in if leb b.height c.height then b ∷ c ∷ cs else c ∷ rest

unfoldable pub sort_by_block_height : List Block → List Block
unfolding put_by_height
sort_by_block_height [] = []
sort_by_block_height (b ∷ bs) = put_by_height b (sort_by_block_height bs)

-- The loop over all hashes: the height is that of the metadata.
unfoldable pub collect_range : ℕ → ℕ → List BlockHash → BlockStore → List Block × BlockStore
unfolding get_block_metadata
collect_range start_height end_height [] s = ([], s)
collect_range start_height end_height (h ∷ hs) s =
    let within : Bool = elim (get_block_metadata h s) [
      | none ↦ Bool.false
      | some m ↦ leb start_height m.height && leb m.height end_height
    ] in
    let (found, s₁) = get_block h s in
    let skipped = collect_range start_height end_height hs s in
    let (rest, s₂) = collect_range start_height end_height hs s₁ in
    if within then (elim found [ none ↦ rest | some b ↦ b ∷ rest ], s₂) else skipped

unfoldable pub get_blocks_by_height_range : ℕ → ℕ → BlockStore → List Block × BlockStore
get_blocks_by_height_range start_height end_height s =
    let (blocks, s₁) = collect_range start_height end_height (get_all_hashes s) s in
    (sort_by_block_height blocks, s₁)

pub record StorageStats : Type 0 where
  pub block_count : ℕ
  pub total_size_bytes : ℕ
  pub cached : ℕ

unfoldable pub sum_sizes : (Block → ℕ) → List Block → ℕ
sum_sizes encoded_size [] = 0
sum_sizes encoded_size (b ∷ bs) = encoded_size b + sum_sizes encoded_size bs

-- `get_stats`, without the hit rate, which is always zero.
unfoldable pub get_stats : (Block → ℕ) → BlockStore → StorageStats
unfolding sum_sizes
get_stats encoded_size s = record {
  block_count = length s.blocks;
  total_size_bytes = sum_sizes encoded_size (values s.blocks);
  cached = s.cache_size;
}
