-- ===== src/Storage/BlockStore/Reads.antt =====
-- Reading and inserting: the store answers as its database column does, whatever is cached.
use cytah_speed.Prelude.{
  ℕ, suc, ◌≡◌, refl, ap, sym, ◌∙◌, true, false, Option, none, some, List, [], ◌∷◌, arith, ◌==◌,
  if◌then◌else◌, length, Table, get, insert, contains_key, get-insert, Option-cases, inl, inr, keys,
}
use cytah_speed.Core.Transaction.{Crypto}
use cytah_speed.Core.Block.{BlockHash, Block}
use cytah_speed.Storage.BlockStore.{
  BlockStore, StoreResult, new_store, add_to_cache, get_block, get_blocks, block_exists,
  insert_block, put_transactions, metadata_of, insert_key, sort_keys, get_all_hashes, block_count,
}
use cytah_speed.Storage.BlockStore.Cache.{
  IsCounted, IsCoherent, add_to_cache-IsCounted, add_to_cache-IsCoherent, blocks-add_to_cache,
}

pub record IsSound (s : BlockStore) : Type 0 where
  pub counted : IsCounted s
  pub coherent : IsCoherent s

pub new_store-IsSound : IsSound new_store
unfolding new_store get
new_store-IsSound = record {
  counted = record { keyed = tt; counted = refl; bounded = omega arith; positive = omega arith };
  coherent = λ h b e. cc;
}

pub get_block_hit :
    (h : BlockHash) (b : Block) (s : BlockStore)
    → get h s.cache ≡ some b
    → get_block h s ≡ (some b, s)
unfolding get_block
get_block_hit h b s e = rw (e, get_block)

pub get_block_miss :
    (h : BlockHash) (b : Block) (s : BlockStore)
    → get h s.cache ≡ none
    → get h s.blocks ≡ some b
    → get_block h s ≡ (some b, add_to_cache h b s)
unfolding get_block
get_block_miss h b s e f = rw (e, f, get_block)

pub get_block_absent :
    (h : BlockHash) (s : BlockStore)
    → get h s.cache ≡ none
    → get h s.blocks ≡ none
    → get_block h s ≡ (none, s)
unfolding get_block
get_block_absent h s e f = rw (e, f, get_block)

-- From a store whose cache agrees with its database, reading a hash returns what the database
-- column holds under it, leaves the column as it is, and keeps the agreement, the cache's count
-- and its bound.
pub get_block-eq :
    (h : BlockHash) (s : BlockStore)
    → IsSound s
    → ((get_block h s).0 ≡ get h s.blocks)
      × ((get_block h s).1.blocks ≡ s.blocks)
      × IsSound (get_block h s).1
get_block-eq h s sound = elim (Option-cases (get h s.cache)) [
  | inr (b, hit) ↦ rw (get_block_hit h b s hit) (sym (sound.coherent h b hit), refl, sound)
  | inl miss ↦ elim (Option-cases (get h s.blocks)) [
    | inr (b, stored) ↦ rw (get_block_miss h b s miss stored) (
      sym stored,
      blocks-add_to_cache h b s,
      record {
        counted = add_to_cache-IsCounted h b s sound.counted;
        coherent = add_to_cache-IsCoherent h b s sound.counted stored sound.coherent;
      },
    )
    | inl absent ↦ rw (get_block_absent h s miss absent) (sym absent, refl, sound)
  ]
]

-- The same for a batch of reads: the blocks of the column under those hashes, in order.
unfoldable pub stored_blocks : List BlockHash → Table Block → List Block
stored_blocks [] m = []
stored_blocks (h ∷ hs) m =
    let rest = stored_blocks hs m in elim (get h m) [ none ↦ rest | some b ↦ b ∷ rest ]

pub get_blocks-eq :
    (hs : List BlockHash) (s : BlockStore)
    → IsSound s
    → ((get_blocks hs s).0 ≡ stored_blocks hs s.blocks)
      × ((get_blocks hs s).1.blocks ≡ s.blocks)
      × IsSound (get_blocks hs s).1
unfolding get_blocks stored_blocks
get_blocks-eq [] s sound = (refl, refl, sound)
get_blocks-eq (h ∷ hs) s sound =
    let (found, kept, sound₁) = get_block-eq h s sound in
    let (rest, kept₂, sound₂) = get_blocks-eq hs (get_block h s).1 sound₁ in
    (ground (arith, found, kept, rest), kept₂ ∙ kept, sound₂)

pub block_exists-eq :
    (h : BlockHash) (s : BlockStore) → IsSound s → block_exists h s ≡ contains_key h s.blocks
unfolding block_exists
block_exists-eq h s sound = elim (Option-cases (get h s.cache)) [
  | inr (b, hit) ↦ rw (hit, sound.coherent h b hit)
  | inl miss ↦ rw miss
]

IsCoherent-put :
    (b : Block) (s : BlockStore) (t : BlockStore)
    → t.blocks ≡ insert b.hash b s.blocks
    → t.cache ≡ s.cache
    → IsCoherent s
    → get b.hash s.blocks ≡ none
    → IsCoherent t
IsCoherent-put b s t e f co fresh h x hit =
    let hit' : get h s.cache ≡ some x = ap (λ (m : Table Block). get h m) (sym f) ∙ hit in
    let stored = co h x hit' in
    ap (λ (m : Table Block). get h m) e ∙ ground (arith, get-insert h b.hash b s.blocks, stored)

module _ (crypto : Crypto) (encoded_size : Block → ℕ) where
  -- Inserting a block whose hash is new, when the write is accepted: every hash then reads as
  -- before but the block's own, under which the block is read, and the cache still agrees with
  -- the database, counts right and stays within its limit. A refused write changes nothing.
  pub insert_block-eq :
      (b : Block) (s : BlockStore)
      → IsSound s
      → get b.hash s.blocks ≡ none
      → IsSound (insert_block crypto encoded_size true b s).1
        × ((h : BlockHash)
            → (get_block h (insert_block crypto encoded_size true b s).1).0
              ≡ (if b.hash == h then some b else (get_block h s).0))
        × (insert_block crypto encoded_size false b s ≡ (StoreResult.write_failed, s))
  unfolding insert_block
  insert_block-eq b s sound fresh = (
    stored_sound,
    λ h.
        (get_block-eq h t stored_sound).0
        ∙ ap (λ (m : Table Block). get h m) (blocks-add_to_cache b.hash b s₁)
        ∙ get-insert h b.hash b s.blocks
        ∙ ap (λ (o : Option Block). if b.hash == h then some b else o)
            (sym (get_block-eq h s sound).0),
    refl,
  )
    where
      t : BlockStore
      t = (insert_block crypto encoded_size true b s).1

      s₁ : BlockStore
      s₁ = record s {
        blocks = insert b.hash b s.blocks;
        metadata = insert b.hash (metadata_of encoded_size b) s.metadata;
        transactions = put_transactions crypto b.transactions s.transactions;
      }

      counted₁ : IsCounted s₁
      counted₁ = record {
        keyed = sound.counted.keyed;
        counted = sound.counted.counted;
        bounded = sound.counted.bounded;
        positive = sound.counted.positive;
      }

      stored_sound : IsSound t
      stored_sound = record {
        counted = add_to_cache-IsCounted b.hash b s₁ counted₁;
        coherent =
            add_to_cache-IsCoherent b.hash b s₁ counted₁
              (ground (arith, get-insert b.hash b.hash b s.blocks))
              (IsCoherent-put b s s₁ refl refl sound.coherent fresh);
      }

length-insert_key : (x : ℕ) (xs : List ℕ) → length (insert_key x xs) ≡ suc (length xs)
unfolding insert_key
length-insert_key x [] = refl
length-insert_key x (y ∷ ys) = ground (arith, length-insert_key x ys)

length-sort_keys : (xs : List ℕ) → length (sort_keys xs) ≡ length xs
unfolding sort_keys
length-sort_keys [] = refl
length-sort_keys (x ∷ xs) = omega (arith, length-insert_key x (sort_keys xs), length-sort_keys xs)

length-keys : (m : Table Block) → length (keys m) ≡ length m
length-keys [] = refl
length-keys ((k, b) ∷ m) = ap suc (length-keys m)

pub block_count-eq : (s : BlockStore) → block_count s ≡ length s.blocks
unfolding block_count get_all_hashes
block_count-eq s = omega (arith, length-sort_keys (keys s.blocks), length-keys s.blocks)
