-- ===== src/Storage/Tests.antt =====
-- The theorems on the block store, at concrete inputs.
use cytah_speed.Prelude.{
  ℕ, ◌≡◌, refl, [], ◌∷◌, true, false, none, some, get, ◌==◌, if◌then◌else◌, insert, List, Option,
  ◌↔◌, retain, keys,
}
use mathlib.Core.List.{Perm}
use cytah_speed.Samples.{sample_crypto, sample_runtime, sample_block, payment}
use cytah_speed.Core.Transaction.{Transaction}
use cytah_speed.Core.Block.{Block, BlockHash}
use cytah_speed.State.Manager.{StateManager}
use cytah_speed.State.Manager.Rebuild.{rebuild_from_blocks, has_transfer}
use cytah_speed.Mempool.Pool.{Pending, TxDagMempool, new_mempool}
use cytah_speed.Storage.Heights.{get_blocks_by_height_range}
use cytah_speed.Storage.Heights.Sorted.{IsAscending}
use cytah_speed.Storage.Heights.Range.{
  IsDescribed, is_within, get_blocks_by_height_range-eq, insert_block-IsDescribed,
}
use cytah_speed.Storage.Rollback.{RollbackResult, rollback_report, rollback_blocks}
use cytah_speed.Storage.Rollback.Replayed.{
  accepted, without, blocks_of, rollback_blocks-eq, rollback_blocks_iff,
}
use cytah_speed.Storage.BlockStore.{
  BlockStore, StoreResult, new_store, insert_block, get_block, block_exists, delete_block,
  add_to_cache, sort_keys,
}
use cytah_speed.Storage.BlockStore.Reads.{
  IsSound, new_store-IsSound, stored_blocks, insert_block-eq,
}
use cytah_speed.Storage.BlockStore.Deletion.{delete_block_stale}

abbrev first_block : Block
first_block = sample_block 11 0 []

abbrev second_block : Block
second_block = sample_block 12 1 (11 ∷ [])

abbrev size_of : Block → ℕ
size_of b = 400

abbrev filled : BlockStore
filled = (insert_block sample_crypto size_of true first_block new_store).1

nothing_there : get first_block.hash new_store.blocks ≡ none
unfolding get new_store
nothing_there = refl

insert_block-eq_example :
    IsSound filled
    × ((h : BlockHash)
        → (get_block h filled).0
          ≡ (if first_block.hash == h then some first_block else (get_block h new_store).0))
    × (insert_block sample_crypto size_of false first_block new_store
        ≡ (StoreResult.write_failed, new_store))
insert_block-eq_example =
    insert_block-eq sample_crypto size_of first_block new_store new_store-IsSound nothing_there

filled-IsSound : IsSound filled
filled-IsSound =
    (insert_block-eq sample_crypto size_of first_block new_store new_store-IsSound nothing_there).0

stored : get 11 filled.blocks ≡ some first_block
unfolding get insert_block add_to_cache insert new_store
stored = refl

delete_block_stale_example :
    (get 11 (delete_block sample_crypto true 11 filled).1.blocks ≡ none)
    × ((get_block 11 (delete_block sample_crypto true 11 filled).1).0 ≡ some first_block)
    × (block_exists 11 (delete_block sample_crypto true 11 filled).1 ≡ true)
delete_block_stale_example = delete_block_stale sample_crypto 11 first_block filled stored

-- A second block, with a payment, on top of the first.
abbrev paying_block : Block
paying_block = record second_block { transactions = payment ∷ [] }

abbrev two_blocks : BlockStore
two_blocks = (insert_block sample_crypto size_of true paying_block filled).1

fresh_second : get paying_block.hash filled.blocks ≡ none
unfolding get insert_block add_to_cache insert new_store
fresh_second = refl

two_blocks-IsSound : IsSound two_blocks
two_blocks-IsSound =
    (insert_block-eq sample_crypto size_of paying_block filled filled-IsSound fresh_second).0

new_store-IsDescribed : IsDescribed new_store
unfolding new_store get
new_store-IsDescribed h b e = cc

two_blocks-IsDescribed : IsDescribed two_blocks
two_blocks-IsDescribed = insert_block-IsDescribed sample_crypto size_of true paying_block filled (
    insert_block-IsDescribed sample_crypto size_of true first_block new_store new_store-IsDescribed)

get_blocks_by_height_range-eq_example :
    Perm (get_blocks_by_height_range 1 5 two_blocks).0 (
      retain (is_within 1 5) (stored_blocks (sort_keys (keys two_blocks.blocks)) two_blocks.blocks))
    × IsAscending (get_blocks_by_height_range 1 5 two_blocks).0
get_blocks_by_height_range-eq_example =
    get_blocks_by_height_range-eq 1 5 two_blocks two_blocks-IsSound two_blocks-IsDescribed

abbrev ledger : StateManager
ledger = record {
  state_tree = record { root = none; leaves = (1, record { balance = 1000; nonce = 0 }) ∷ [] };
  current_state_root = 0;
}

abbrev pool : TxDagMempool
pool = new_mempool 100 ledger 1

abbrev iterate : Pending → Pending
iterate m = m

abbrev at_noon : Transaction → ℕ
at_noon tx = 43_200

abbrev rolled_back : RollbackResult × BlockStore × StateManager × TxDagMempool
rolled_back =
    rollback_blocks sample_runtime iterate at_noon (accepted (12 ∷ [])) two_blocks ledger pool

rollback_blocks-eq_example :
    (blocks : List Block) × Perm blocks (blocks_of (without (12 ∷ []) two_blocks.blocks))
    × IsAscending blocks
    × (rolled_back.1.blocks ≡ without (12 ∷ []) two_blocks.blocks)
    × (rolled_back.2 ≡ (rebuild_from_blocks sample_runtime blocks ledger).1)
    × ((last : Option Block) × (rolled_back.0
          ≡ rollback_report last (rebuild_from_blocks sample_runtime blocks ledger).0))
rollback_blocks-eq_example =
    rollback_blocks-eq sample_runtime iterate at_noon (12 ∷ []) two_blocks ledger pool
      two_blocks-IsSound

rollback_blocks_iff_example :
    ((last : Option Block) × (rolled_back.0 ≡ RollbackResult.done last))
    ↔ (has_transfer (blocks_of (without (12 ∷ []) two_blocks.blocks)) ≡ false)
rollback_blocks_iff_example =
    rollback_blocks_iff sample_runtime iterate at_noon (12 ∷ []) two_blocks ledger pool
      two_blocks-IsSound
