-- ===== src/Storage/BlockStore/Deletion.antt =====
-- Deleting a block, and what the cache remembers of it.
use cytah_speed.Prelude.{◌≡◌, ◌∙◌, true, Option, none, some, arith, get, get-remove, ap}
use cytah_speed.Core.Transaction.{Crypto}
use cytah_speed.Core.Block.{BlockHash, Block}
use cytah_speed.Storage.BlockStore.{
  BlockStore, get_block, remove_from_cache, add_to_cache, block_exists, delete_block,
}
use cytah_speed.Storage.BlockStore.Reads.{get_block_hit, get_block_miss}
use cytah_speed.Storage.BlockStore.Cache.{
  get-add_to_cache, blocks-remove_from_cache, get-remove_from_cache,
}

module _ (crypto : Crypto) where
  -- A deletion that the database accepts removes a stored block from the column, but reading
  -- the block for its transactions has put it back into the cache: `get_block` still returns
  -- it, and so does `block_exists`.
  pub delete_block_stale :
      (h : BlockHash) (b : Block) (s : BlockStore)
      → get h s.blocks ≡ some b
      → (get h (delete_block crypto true h s).1.blocks ≡ none)
        × ((get_block h (delete_block crypto true h s).1).0 ≡ some b)
        × (block_exists h (delete_block crypto true h s).1 ≡ true)
  unfolding delete_block block_exists
  delete_block_stale h b s stored =
      let s₁ = remove_from_cache h s in
      let read =
        get_block_miss h b s₁ (get-remove_from_cache h s)
          (ap (λ m. get h m) (blocks-remove_from_cache h s) ∙ stored) in
      rw read (
        ground (arith, get-remove h h (add_to_cache h b s₁).blocks),
        ap (λ (r : Option Block × BlockStore). r.0) (get_block_hit h b _ (get-add_to_cache h b s₁)),
        ground (arith, get-add_to_cache h b s₁),
      )
