-- ===== src/Storage/BlockStore/Cache.antt =====
-- The cache stays within its limit, keeps count, and holds nothing that the database lacks.
use cytah_speed.Prelude.{
  ℕ, ◌-◌, ◌≤◌, ◌<◌, ◌≡◌, refl, none, some, [], ◌∷◌, arith, length, Table, get, IsKeyed, get-insert,
  get-remove, insert-IsKeyed, remove-IsKeyed, length-insert, length-remove,
}
use cytah_speed.Core.Block.{BlockHash, Block}
use cytah_speed.Storage.BlockStore.{BlockStore, evict, add_to_cache, remove_from_cache}

-- The counter counts the entries, of which there are at most as many as the limit says, each
-- under a key of its own.
pub record IsCounted (s : BlockStore) : Type 0 where
  pub keyed : IsKeyed s.cache
  pub counted : s.cache_size ≡ length s.cache
  pub bounded : s.cache_size ≤ s.cache_size_limit
  pub positive : 1 ≤ s.cache_size_limit

-- Whatever the cache holds, the database holds.
abbrev pub IsCoherent : BlockStore → Type 0
IsCoherent s = (h : BlockHash) (b : Block) → get h s.cache ≡ some b → get h s.blocks ≡ some b

-- What eviction leaves: a rest of the cache, below the limit.
record Evicted (limit : ℕ) (cache : Table Block) (size : ℕ) : Type 0 where
  keyed : IsKeyed (evict limit cache size).0
  counted : (evict limit cache size).1 ≡ length (evict limit cache size).0
  room : (evict limit cache size).1 < limit

evict-Evicted :
    (limit : ℕ) (cache : Table Block) (size : ℕ)
    → 1 ≤ limit
    → IsKeyed cache
    → size ≡ length cache
    → Evicted limit cache size
unfolding evict
evict-Evicted limit [] size h k e = ground arith
evict-Evicted limit ((i, b) ∷ cache) size h k e =
    ground (arith, evict-Evicted limit cache (size - 1) h k.1 (omega arith))

pub get-evict :
    (limit : ℕ) (cache : Table Block) (size : ℕ) (h : BlockHash) (b : Block)
    → IsKeyed cache
    → get h (evict limit cache size).0 ≡ some b
    → get h cache ≡ some b
unfolding evict get
get-evict limit [] size h b k e = e
get-evict limit ((i, c) ∷ cache) size h b k e =
    ground (arith, get-evict limit cache (size - 1) h b k.1)

pub add_to_cache-IsCounted :
    (h : BlockHash) (b : Block) (s : BlockStore) → IsCounted s → IsCounted (add_to_cache h b s)
unfolding add_to_cache
add_to_cache-IsCounted h b s c =
    let left = evict-Evicted s.cache_size_limit s.cache s.cache_size c.positive c.keyed c.counted in
    let cache = (evict s.cache_size_limit s.cache s.cache_size).0 in
    record {
      keyed = insert-IsKeyed h b cache left.keyed;
      counted = ground (arith, left.counted, length-insert h b cache);
      bounded = ground (arith, left.room);
      positive = c.positive;
    }

pub add_to_cache-IsCoherent :
    (h : BlockHash) (b : Block) (s : BlockStore)
    → IsCounted s
    → get h s.blocks ≡ some b
    → IsCoherent s
    → IsCoherent (add_to_cache h b s)
unfolding add_to_cache
add_to_cache-IsCoherent h b s c stored co j x e =
    let cache = (evict s.cache_size_limit s.cache s.cache_size).0 in
    ground (
      arith,
      get-insert j h b cache,
      get-evict s.cache_size_limit s.cache s.cache_size j x c.keyed,
      co j x,
    )

-- After it is added, a block is in the cache.
pub get-add_to_cache :
    (h : BlockHash) (b : Block) (s : BlockStore) → get h (add_to_cache h b s).cache ≡ some b
unfolding add_to_cache
get-add_to_cache h b s =
    ground (arith, get-insert h h b (evict s.cache_size_limit s.cache s.cache_size).0)

pub blocks-add_to_cache :
    (h : BlockHash) (b : Block) (s : BlockStore) → (add_to_cache h b s).blocks ≡ s.blocks
unfolding add_to_cache
blocks-add_to_cache h b s = refl

pub remove_from_cache-IsCounted :
    (h : BlockHash) (s : BlockStore) → IsCounted s → IsCounted (remove_from_cache h s)
unfolding remove_from_cache
remove_from_cache-IsCounted h s c =
    ground (arith, remove-IsKeyed h s.cache c.keyed, length-remove h s.cache c.keyed)

pub remove_from_cache-IsCoherent :
    (h : BlockHash) (s : BlockStore) → IsCoherent s → IsCoherent (remove_from_cache h s)
unfolding remove_from_cache
remove_from_cache-IsCoherent h s co j x e = ground (arith, get-remove j h s.cache, co j x)

pub blocks-remove_from_cache :
    (h : BlockHash) (s : BlockStore) → (remove_from_cache h s).blocks ≡ s.blocks
unfolding remove_from_cache
blocks-remove_from_cache h s = ground arith

pub get-remove_from_cache :
    (h : BlockHash) (s : BlockStore) → get h (remove_from_cache h s).cache ≡ none
unfolding remove_from_cache
get-remove_from_cache h s = ground (arith, get-remove h h s.cache)
