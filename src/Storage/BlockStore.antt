-- ===== src/Storage/BlockStore.antt =====
-- The block store (src/storage/block_store.rs): a RocksDB column family is a table, whose
-- iteration is by ascending key, beside the in-memory cache with its own counter. The encoded
-- size of a block (bincode), and whether the database accepts a write, are parameters.
pub mod Cache
pub mod Reads
pub mod Deletion
use cytah_speed.Prelude.{
  ℕ, suc, ◌+◌, ◌-◌, Bool, true, false, not, ◌&&◌, ◌||◌, Option, none, some, List, [], ◌∷◌, map,
  ◌==◌, leb, if◌then◌else◌, length, is_some, retain, contains, Table, get, insert, remove, keys,
  contains_key,
}
use cytah_speed.Core.Transaction.{Hash, Transaction, Crypto, tx_hash}
use cytah_speed.Core.Block.{BlockHash, Block, calculate_hash}

pub record BlockMetadata : Type 0 where
  pub height : ℕ
  pub timestamp : ℕ
  pub transaction_count : ℕ
  pub size_bytes : ℕ

pub record BlockStore : Type 0 where
  pub blocks : Table Block
  pub metadata : Table BlockMetadata
  pub transactions : Table Transaction
  pub cache : Table Block
  pub cache_size_limit : ℕ
  pub cache_size : ℕ

-- `new_with_path` on an empty database.
unfoldable pub new_store : BlockStore
new_store = record {
  blocks = [];
  metadata = [];
  transactions = [];
  cache = [];
  cache_size_limit = 100;
  cache_size = 0;
}

pub data StoreResult : Type 0 where
  ok write_failed hash_mismatch : StoreResult

-- The eviction loop of `add_to_cache`: it drops the first key that the map iterates over, while
-- the counter stands at the limit and the map is not empty.
unfoldable pub evict : ℕ → Table Block → ℕ → Table Block × ℕ
evict limit [] size = ([], size)
evict limit ((k, b) ∷ cache) size =
    let rest = evict limit cache (size - 1) in
    if leb limit size then rest else ((k, b) ∷ cache, size)

unfoldable pub add_to_cache : BlockHash → Block → BlockStore → BlockStore
unfolding evict
add_to_cache h b s =
    let (cache, size) = evict s.cache_size_limit s.cache s.cache_size in
    record s {
      cache = insert h b cache;
      cache_size = if is_some (get h cache) then size else size + 1;
    }

unfoldable pub remove_from_cache : BlockHash → BlockStore → BlockStore
remove_from_cache h s =
    if is_some (get h s.cache)
    then record s { cache = remove h s.cache; cache_size = s.cache_size - 1 }
    else s

-- `get_block`: a hit leaves the store alone, a miss that the database answers fills the cache.
unfoldable pub get_block : BlockHash → BlockStore → Option Block × BlockStore
get_block h s = elim (get h s.cache) [
  | some b ↦ (some b, s)
  | none ↦ elim (get h s.blocks) [ some b ↦ (some b, add_to_cache h b s) | none ↦ (none, s) ]
]

unfoldable pub block_exists : BlockHash → BlockStore → Bool
block_exists h s = contains_key h s.cache || contains_key h s.blocks

-- Ascending order of keys.
unfoldable pub insert_key : ℕ → List ℕ → List ℕ
insert_key x [] = x ∷ []
insert_key x (y ∷ ys) = let rest = insert_key x ys in if leb x y then x ∷ y ∷ ys else y ∷ rest

unfoldable pub sort_keys : List ℕ → List ℕ
unfolding insert_key
sort_keys [] = []
sort_keys (x ∷ xs) = insert_key x (sort_keys xs)

-- `get_all_hashes`
unfoldable pub get_all_hashes : BlockStore → List BlockHash
unfolding sort_keys
get_all_hashes s = sort_keys (keys s.blocks)

unfoldable pub block_count : BlockStore → ℕ
unfolding get_all_hashes
block_count s = length (get_all_hashes s)

-- `filter_map(|h| self.get_block(&h))`, which passes the cache along.
unfoldable pub get_blocks : List BlockHash → BlockStore → List Block × BlockStore
get_blocks [] s = ([], s)
get_blocks (h ∷ hs) s =
    let (found, s₁) = get_block h s in
    let (rest, s₂) = get_blocks hs s₁ in (elim found [ none ↦ rest | some b ↦ b ∷ rest ], s₂)

unfoldable pub get_all_blocks : BlockStore → List Block × BlockStore
get_all_blocks s = get_blocks (get_all_hashes s) s

unfoldable pub get_blocks_by_parent : BlockHash → BlockStore → List Block × BlockStore
get_blocks_by_parent h s =
    let (blocks, s₁) = get_all_blocks s in
    (retain (λ b. contains b.header.parent_hashes h) blocks, s₁)

unfoldable pub metadata_of : (Block → ℕ) → Block → BlockMetadata
metadata_of encoded_size b = record {
  height = b.height;
  timestamp = b.header.timestamp;
  transaction_count = length b.transactions;
  size_bytes = encoded_size b;
}

module _ (crypto : Crypto) where
  -- The loop of `insert_block` over the transactions of the block.
  unfoldable pub put_transactions : List Transaction → Table Transaction → Table Transaction
  put_transactions [] m = m
  put_transactions (tx ∷ txs) m = put_transactions txs (insert (tx_hash crypto tx) tx m)

  unfoldable pub drop_transactions : List Transaction → Table Transaction → Table Transaction
  drop_transactions [] m = m
  drop_transactions (tx ∷ txs) m = drop_transactions txs (remove (tx_hash crypto tx) m)

  -- The transactions of a block that may be missing.
  abbrev pub transactions_of : Option Block → List Transaction
  transactions_of none = []
  transactions_of (some b) = b.transactions

  unfoldable pub insert_block : (Block → ℕ) → Bool → Block → BlockStore → StoreResult × BlockStore
  insert_block encoded_size written b s =
      let s₁ = record s {
        blocks = insert b.hash b s.blocks;
        metadata = insert b.hash (metadata_of encoded_size b) s.metadata;
        transactions = put_transactions b.transactions s.transactions;
      } in
      if written then (StoreResult.ok, add_to_cache b.hash b s₁) else (StoreResult.write_failed, s)

  -- `delete_block`: the cache entry goes first, then the block is read for its transactions,
  -- and the batch of deletions is written last.
  unfoldable pub delete_block : Bool → BlockHash → BlockStore → StoreResult × BlockStore
  delete_block written h s =
      let (found, s₁) = get_block h (remove_from_cache h s) in
      let s₂ = record s₁ {
        blocks = remove h s₁.blocks;
        metadata = remove h s₁.metadata;
        transactions = drop_transactions (transactions_of found) s₁.transactions;
      } in
      if written then (StoreResult.ok, s₂) else (StoreResult.write_failed, s₁)

  -- `clear`: deletions whose result is ignored, then the cache. One flag for each write.
  unfoldable pub delete_all : List Bool → List BlockHash → BlockStore → BlockStore
  delete_all flags [] s = s
  delete_all [] (h ∷ hs) s = delete_all [] hs (delete_block true h s).1
  delete_all (f ∷ flags) (h ∷ hs) s = delete_all flags hs (delete_block f h s).1

  unfoldable pub clear : List Bool → BlockStore → BlockStore
  clear flags s = record (delete_all flags (get_all_hashes s) s) { cache = []; cache_size = 0 }

  -- The loop of `verify_integrity`.
  unfoldable pub all_hashed : List Block → StoreResult
  all_hashed [] = StoreResult.ok
  all_hashed (b ∷ bs) =
      let rest = all_hashed bs in
      if b.hash == calculate_hash crypto b then rest else StoreResult.hash_mismatch

  unfoldable pub verify_integrity : BlockStore → StoreResult × BlockStore
  verify_integrity s = let (blocks, s₁) = get_all_blocks s in (all_hashed blocks, s₁)
