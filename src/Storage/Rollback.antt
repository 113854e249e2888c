-- ===== src/Storage/Rollback.antt =====
-- Rolling blocks back (`rollback_blocks` in src/storage/block_store.rs): blocks leave the store,
-- their transactions go back to the pool, and the state is replayed from the blocks that remain.
pub mod Faithful
pub mod Replayed
use cytah_speed.Prelude.{ℕ, Bool, Option, none, some, List, [], ◌∷◌}
use cytah_speed.Core.Transaction.{Transaction, Crypto}
use cytah_speed.Core.Block.{BlockHash, Block}
use cytah_speed.Storage.BlockStore.{
  BlockStore, StoreResult, get_block, get_all_blocks, delete_block,
}
use cytah_speed.Storage.Heights.{sort_by_block_height}
use cytah_speed.State.Tree.{Runtime}
use cytah_speed.State.Manager.{StateManager, StateResult, StateError}
use cytah_speed.State.Manager.Rebuild.{rebuild_from_blocks}
use cytah_speed.Mempool.Pool.{Pending, TxDagMempool, add_transaction}

pub data RollbackResult : Type 0 where
  done : Option Block → RollbackResult
  write_failed : RollbackResult
  rebuild_failed : StateError → RollbackResult

unfoldable pub rollback_report : Option Block → StateResult → RollbackResult
rollback_report last StateResult.ok = RollbackResult.done last
rollback_report last (StateResult.err e) = RollbackResult.rebuild_failed e

module _ (rt : Runtime) where
  -- `state.rebuild_from_blocks(&remaining_blocks)`, on the blocks of the store.
  unfoldable pub rebuild_state : BlockStore → StateManager → StateResult × StateManager × BlockStore
  rebuild_state s state =
      let (remaining, s₁) = get_all_blocks s in
      let (result, state₁) = rebuild_from_blocks rt (sort_by_block_height remaining) state in
      (result, state₁, s₁)

-- The pool reads the clock when it makes an entry: here for each transaction.
module _ (rt : Runtime) (order : Pending → Pending) (clock : Transaction → ℕ) where
  -- `let _ = mempool.add_transaction(tx.clone(), vec![], None)` for each transaction.
  unfoldable pub resubmit : List Transaction → TxDagMempool → TxDagMempool
  resubmit [] pool = pool
  resubmit (tx ∷ txs) pool =
      resubmit txs (add_transaction rt.crypto order (clock tx) (clock tx) tx [] none pool).1

  -- The loop over the hashes, each with a flag for its write: whether every write succeeded, the
  -- last block that was removed, the store and the pool.
  unfoldable pub remove_blocks :
      List (Bool × BlockHash)
      → Option Block
      → BlockStore
      → TxDagMempool
      → StoreResult × Option Block × BlockStore × TxDagMempool
  unfolding resubmit
  remove_blocks [] last s pool = (StoreResult.ok, last, s, pool)
  remove_blocks ((written, h) ∷ hs) last s pool =
      let (found, s₁) = get_block h s in
      let (result, s₂) = delete_block rt.crypto written h s₁ in
      elim found [
        | none ↦ remove_blocks hs last s₁ pool
        | some b ↦ elim result [
          | StoreResult.ok ↦ remove_blocks hs (some b) s₂ (resubmit b.transactions pool)
          | StoreResult.write_failed ↦ (StoreResult.write_failed, some b, s₂, pool)
          | StoreResult.hash_mismatch ↦ (StoreResult.hash_mismatch, some b, s₂, pool)
        ]
      ]

  unfoldable pub rollback_blocks :
      List (Bool × BlockHash)
      → BlockStore
      → StateManager
      → TxDagMempool
      → RollbackResult × BlockStore × StateManager × TxDagMempool
  unfolding rollback_report remove_blocks rebuild_state
  rollback_blocks hs s state pool =
      let (removed, last, s₁, pool₁) = remove_blocks hs none s pool in
      let (result, state₁, s₂) = rebuild_state rt s₁ state in
      elim removed [
        | StoreResult.ok ↦ (rollback_report last result, s₂, state₁, pool₁)
        | StoreResult.write_failed ↦ (RollbackResult.write_failed, s₁, state, pool₁)
        | StoreResult.hash_mismatch ↦ (RollbackResult.write_failed, s₁, state, pool₁)
      ]
