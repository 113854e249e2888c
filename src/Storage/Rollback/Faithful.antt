-- ===== src/Storage/Rollback/Faithful.antt =====
-- After deletions the cache may hold blocks that the database has lost, but never another block
-- than the database has under a hash. That is enough to read what the database holds.
use cytah_speed.Prelude.{
  ◌≡◌, refl, ap, sym, ◌∙◌, true, Option, none, some, List, [], ◌∷◌, arith, ==_iff, ==_self,
  contains, contains_key, Table, get, remove, get-insert, get-remove, Option-cases, inl, inr,
}
use cytah_speed.Core.Transaction.{Crypto}
use cytah_speed.Core.Block.{BlockHash, Block}
use cytah_speed.Storage.BlockStore.{
  BlockStore, StoreResult, add_to_cache, remove_from_cache, get_block, get_blocks, delete_block,
  evict,
}
use cytah_speed.Storage.BlockStore.Cache.{
  IsCounted, add_to_cache-IsCounted, remove_from_cache-IsCounted, blocks-add_to_cache,
  blocks-remove_from_cache, get-evict,
}
use cytah_speed.Storage.BlockStore.Reads.{
  IsSound, get_block_hit, get_block_miss, get_block_absent, stored_blocks,
}

pub record IsFaithful (s : BlockStore) : Type 0 where
  pub counted : IsCounted s
  pub agrees :
      (h : BlockHash) (b c : Block) → get h s.cache ≡ some b → get h s.blocks ≡ some c → b ≡ c

pub IsSound-IsFaithful : (s : BlockStore) → IsSound s → IsFaithful s
IsSound-IsFaithful s sound = record {
  counted = sound.counted;
  agrees = λ h b c hit stored. ground (arith, sound.coherent h b hit, stored);
}

add_to_cache-IsFaithful :
    (h : BlockHash) (b : Block) (s : BlockStore)
    → get h s.blocks ≡ some b
    → IsFaithful s
    → IsFaithful (add_to_cache h b s)
unfolding add_to_cache
add_to_cache-IsFaithful h b s stored f = record {
  counted = add_to_cache-IsCounted h b s f.counted;
  agrees = λ j x c hit held. ground (
    arith,
    hit,
    held,
    stored,
    ==_iff h j,
    get-insert j h b (evict s.cache_size_limit s.cache s.cache_size).0,
    get-evict s.cache_size_limit s.cache s.cache_size j x f.counted.keyed,
    f.agrees j x c,
  );
}

remove_from_cache-IsFaithful :
    (h : BlockHash) (s : BlockStore) → IsFaithful s → IsFaithful (remove_from_cache h s)
unfolding remove_from_cache
remove_from_cache-IsFaithful h s f = record {
  counted = remove_from_cache-IsCounted h s f.counted;
  agrees = λ j x c hit held. ground (arith, hit, held, get-remove j h s.cache, f.agrees j x c);
}

-- A read leaves the column alone and finds what it holds.
pub record Read (h : BlockHash) (s : BlockStore) : Type 0 where
  pub faithful : IsFaithful (get_block h s).1
  pub kept : (get_block h s).1.blocks ≡ s.blocks
  pub found : (b : Block) → get h s.blocks ≡ some b → (get_block h s).0 ≡ some b
  pub missed : (get_block h s).0 ≡ none → get h s.blocks ≡ none

given_answer :
    (h : BlockHash) (s t : BlockStore) (o : Option Block)
    → get_block h s ≡ (o, t)
    → IsFaithful t
    → t.blocks ≡ s.blocks
    → ((b : Block) → get h s.blocks ≡ some b → o ≡ some b)
    → (o ≡ none → get h s.blocks ≡ none)
    → Read h s
given_answer h s t o e f kept found missed = record {
  faithful = rw e f;
  kept = rw e kept;
  found = λ b stored. rw e (found b stored);
  missed = λ absent. missed (sym (ap (λ (r : Option Block × BlockStore). r.0) e) ∙ absent);
}

pub get_block-Read : (h : BlockHash) (s : BlockStore) → IsFaithful s → Read h s
get_block-Read h s f = elim (Option-cases (get h s.cache)) [
  | inr (b, hit) ↦
      given_answer h s s (some b) (get_block_hit h b s hit) f refl
        (λ c stored. ap some (f.agrees h b c hit stored)) (λ e. cc)
  | inl miss ↦ elim (Option-cases (get h s.blocks)) [
    | inr (b, stored) ↦
        given_answer h s (add_to_cache h b s) (some b) (get_block_miss h b s miss stored)
          (add_to_cache-IsFaithful h b s stored f) (blocks-add_to_cache h b s)
          (λ c held. sym stored ∙ held) (λ e. cc)
    | inl absent ↦
        given_answer h s s none (get_block_absent h s miss absent) f refl
          (λ c held. sym absent ∙ held) (λ e. absent)
  ]
]

-- A batch of reads of stored hashes.
pub get_blocks-stored :
    (hs : List BlockHash) (s : BlockStore)
    → IsFaithful s
    → ((h : BlockHash) → contains hs h ≡ true → contains_key h s.blocks ≡ true)
    → ((get_blocks hs s).0 ≡ stored_blocks hs s.blocks) × ((get_blocks hs s).1.blocks ≡ s.blocks)
unfolding get_blocks stored_blocks
get_blocks-stored [] s f known = (refl, refl)
get_blocks-stored (h ∷ hs) s f known =
    let read = get_block-Read h s f in
    let s₁ = (get_block h s).1 in
    let (rest, kept) =
      get_blocks-stored hs s₁ read.faithful λ k m. rw read.kept (known k (ground (arith, m))) in
    elim (Option-cases (get h s.blocks)) [
      | inl absent ↦ absurd (ground (arith, known h (ground (arith, ==_self h)), absent))
      | inr (b, stored) ↦
          (ground (arith, stored, read.found b stored, rest, read.kept), kept ∙ read.kept)
    ]

pub remove_absent {ℓ} : {V : Type ℓ} (k : BlockHash) (m : Table V) → get k m ≡ none → remove k m ≡ m
unfolding get remove
remove_absent k [] e = refl
remove_absent k ((j, v) ∷ m) e = ground (arith, e, remove_absent k m)

module _ (crypto : Crypto) where
  -- An accepted deletion takes the hash out of the column.
  pub delete_block-IsFaithful :
      (h : BlockHash) (s : BlockStore)
      → IsFaithful s
      → ((delete_block crypto true h s).0 ≡ StoreResult.ok)
        × IsFaithful (delete_block crypto true h s).1
        × ((delete_block crypto true h s).1.blocks ≡ remove h s.blocks)
  unfolding delete_block
  delete_block-IsFaithful h s f =
      let read = get_block-Read h (remove_from_cache h s) (remove_from_cache-IsFaithful h s f) in
      (
        refl,
        record {
          counted = record {
            keyed = read.faithful.counted.keyed;
            counted = read.faithful.counted.counted;
            bounded = read.faithful.counted.bounded;
            positive = read.faithful.counted.positive;
          };
          agrees = λ j x c hit held. ground (
            arith,
            hit,
            held,
            get-remove j h (get_block h (remove_from_cache h s)).1.blocks,
            read.faithful.agrees j x c,
          );
        },
        ap (remove h) (read.kept ∙ blocks-remove_from_cache h s),
      )
