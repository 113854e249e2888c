-- ===== src/Storage/Heights/Range.antt =====
-- The blocks between two heights: the loop goes by the stored metadata.
use cytah_speed.Prelude.{
  ℕ, ◌≡◌, refl, ap, sym, Bool, true, false, ◌&&◌, some, List, [], ◌∷◌, arith, ==_self, leb,
  contains, contains_key, retain, get, get-insert, keys, Option-cases, Bool-cases, inl, inr, ◌==◌,
}
use mathlib.Core.List.{Perm}
use cytah_speed.Core.Transaction.{Crypto}
use cytah_speed.Core.Block.{BlockHash, Block}
use cytah_speed.Storage.BlockStore.{
  BlockStore, BlockMetadata, metadata_of, get_block, get_all_hashes, sort_keys, add_to_cache,
  insert_block,
}
use cytah_speed.Storage.BlockStore.Reads.{IsSound, get_block-eq, stored_blocks}
use cytah_speed.Storage.Heights.{get_block_metadata, collect_range, get_blocks_by_height_range}
use cytah_speed.Storage.Heights.Sorted.{
  IsAscending, sort_by_block_height-perm, sort_by_block_height-IsAscending,
}
use cytah_speed.Dag.Order.Sorting.{sorted_key_stored}

-- Every stored block has metadata with its height.
abbrev pub IsDescribed : BlockStore → Type 0
IsDescribed s =
    (h : BlockHash) (b : Block)
    → get h s.blocks ≡ some b
    → (m : BlockMetadata) × (get h s.metadata ≡ some m) × (m.height ≡ b.height)

abbrev pub is_within : ℕ → ℕ → Block → Bool
is_within low high b = leb low b.height && leb b.height high

metadata-get_block : (h : BlockHash) (s : BlockStore) → (get_block h s).1.metadata ≡ s.metadata
unfolding get_block add_to_cache
metadata-get_block h s = ground arith

collect_range-eq :
    (low high : ℕ) (hs : List BlockHash) (s : BlockStore)
    → IsSound s
    → IsDescribed s
    → ((h : BlockHash) → contains hs h ≡ true → contains_key h s.blocks ≡ true)
    → (collect_range low high hs s).0 ≡ retain (is_within low high) (stored_blocks hs s.blocks)
unfolding collect_range get_block_metadata stored_blocks
collect_range-eq low high [] s sound known described = refl
collect_range-eq low high (h ∷ hs) s sound described known =
    let (found, kept, sound₁) = get_block-eq h s sound in
    let s₁ = (get_block h s).1 in
    let later : (k : BlockHash) → contains hs k ≡ true → contains_key k s.blocks ≡ true =
      λ k m. known k (ground (arith, m)) in
    let described₁ : IsDescribed s₁ =
      λ k b e. rw (metadata-get_block h s) (described k b (rw kept at e)) in
    let skipped = collect_range-eq low high hs s sound described later in
    let rest = collect_range-eq low high hs s₁ sound₁ described₁ (λ k m. rw kept (later k m)) in
    elim (Option-cases (get h s.blocks)) [
      | inl absent ↦ absurd (ground (arith, known h (ground (arith, ==_self h)), absent))
      | inr (b, stored) ↦
          let (m, meta, same) = described h b stored in
          ground (arith, found, kept, stored, meta, same, skipped, rest)
    ]

-- From a store whose cache agrees with its database and whose metadata carries the heights of its
-- blocks, `get_blocks_by_height_range` returns the stored blocks whose height lies between the
-- bounds (both included), each once and in ascending order of height.
pub get_blocks_by_height_range-eq :
    (low high : ℕ) (s : BlockStore)
    → IsSound s
    → IsDescribed s
    → let found = (get_blocks_by_height_range low high s).0 in
      Perm found (retain (is_within low high) (stored_blocks (sort_keys (keys s.blocks)) s.blocks))
      × IsAscending found
unfolding get_blocks_by_height_range get_all_hashes
get_blocks_by_height_range-eq low high s sound described =
    let collected =
      collect_range-eq low high (sort_keys (keys s.blocks)) s sound described
        (sorted_key_stored s.blocks) in
    (
      rw (sym collected)
          (sort_by_block_height-perm (collect_range low high (sort_keys (keys s.blocks)) s).0),
      sort_by_block_height-IsAscending (collect_range low high (sort_keys (keys s.blocks)) s).0,
    )

-- Insertion keeps the metadata in step.
pub insert_block-IsDescribed :
    (crypto : Crypto) (encoded_size : Block → ℕ) (written : Bool) (b : Block) (s : BlockStore)
    → IsDescribed s
    → IsDescribed (insert_block crypto encoded_size written b s).1
unfolding insert_block metadata_of add_to_cache
insert_block-IsDescribed crypto encoded_size false b s described h c e = described h c e
insert_block-IsDescribed crypto encoded_size true b s described h c e =
    let column = get-insert h b.hash b s.blocks in
    let meta = get-insert h b.hash (metadata_of encoded_size b) s.metadata in
    elim (Bool-cases (b.hash == h)) [
      | inl same ↦
          let is_new : b ≡ c = ground (arith, column, same, e) in
          (
            metadata_of encoded_size b,
            ground (arith, meta, same),
            ap (λ (x : Block). x.height) is_new,
          )
      | inr other ↦
          let (m, found, agreed) = described h c (ground (arith, column, e, other)) in
          (m, ground (arith, meta, other, found), agreed)
    ]
