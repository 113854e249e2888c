-- ===== src/Storage/Rollback/Replayed.antt =====
-- What a rollback leaves: the column without the hashes, and a state that replays it.
use cytah_speed.Prelude.{
  ℕ, ◌≡◌, ◌↔◌, refl, ap, sym, ◌∙◌, Bool, true, false, Option, none, some, List, [], ◌∷◌, arith,
  Table, remove, keys, Option-cases, inl, inr,
}
use mathlib.Core.List.{Perm}
use cytah_speed.Core.Transaction.{Transaction}
use cytah_speed.Core.Block.{BlockHash, Block}
use cytah_speed.Storage.BlockStore.{
  BlockStore, StoreResult, get_block, get_all_blocks, get_all_hashes, delete_block, sort_keys,
}
use cytah_speed.Storage.BlockStore.Reads.{IsSound, stored_blocks}
use cytah_speed.Storage.Heights.{put_by_height, sort_by_block_height}
use cytah_speed.Storage.Heights.Sorted.{
  IsAscending, sort_by_block_height-perm, sort_by_block_height-IsAscending,
}
use cytah_speed.State.Tree.{Runtime}
use cytah_speed.State.Manager.{StateManager, StateResult}
use cytah_speed.State.Manager.Rebuild.{rebuild_from_blocks, has_transfer, rebuild_from_blocks_iff}
use cytah_speed.Mempool.Pool.{Pending, TxDagMempool}
use cytah_speed.Dag.Order.Sorting.{sorted_key_stored}
use cytah_speed.Storage.Rollback.{
  RollbackResult, rollback_report, resubmit, remove_blocks, rebuild_state, rollback_blocks,
}
use cytah_speed.Storage.Rollback.Faithful.{
  IsFaithful, IsSound-IsFaithful, get_block-Read, get_blocks-stored, remove_absent,
  delete_block-IsFaithful,
}

-- Every write is accepted.
abbrev pub accepted : List BlockHash → List (Bool × BlockHash)
accepted [] = []
accepted (h ∷ hs) = (true, h) ∷ accepted hs

unfoldable pub without : List BlockHash → Table Block → Table Block
without [] m = m
without (h ∷ hs) m = without hs (remove h m)

-- The blocks of a column, in the order of their hashes.
unfoldable pub blocks_of : Table Block → List Block
blocks_of m = stored_blocks (sort_keys (keys m)) m

get_all_blocks-stored :
    (s : BlockStore)
    → IsFaithful s
    → ((get_all_blocks s).0 ≡ blocks_of s.blocks) × ((get_all_blocks s).1.blocks ≡ s.blocks)
unfolding get_all_blocks get_all_hashes blocks_of
get_all_blocks-stored s f =
    get_blocks-stored (sort_keys (keys s.blocks)) s f (sorted_key_stored s.blocks)

rollback_report_done :
    (last found : Option Block) (result : StateResult)
    → rollback_report last result ≡ RollbackResult.done found
    → result ≡ StateResult.ok
unfolding rollback_report
rollback_report_done last found StateResult.ok e = refl
rollback_report_done last found (StateResult.err x) e = cc

has_transfer-put :
    (b : Block) (bs : List Block) → has_transfer (put_by_height b bs) ≡ has_transfer (b ∷ bs)
unfolding put_by_height
has_transfer-put b [] = refl
has_transfer-put b (c ∷ cs) = ground (arith, has_transfer-put b cs)

has_transfer-sort : (bs : List Block) → has_transfer (sort_by_block_height bs) ≡ has_transfer bs
unfolding sort_by_block_height
has_transfer-sort [] = refl
has_transfer-sort (b ∷ bs) =
    has_transfer-put b (sort_by_block_height bs) ∙ ground (arith, has_transfer-sort bs)

module _ (rt : Runtime) (order : Pending → Pending) (clock : Transaction → ℕ) where
  -- What the loop of the removals ends with.
  abbrev Removed : Table Block → StoreResult × Option Block × BlockStore × TxDagMempool → Type 0
  Removed m r = (r.0 ≡ StoreResult.ok) × IsFaithful r.2 × (r.2.blocks ≡ m)

  remove_blocks-missed :
      (h : BlockHash) (hs : List (Bool × BlockHash)) (last : Option Block) (s : BlockStore)
      (pool : TxDagMempool)
      → (get_block h s).0 ≡ none
      → remove_blocks rt order clock ((true, h) ∷ hs) last s pool
        ≡ remove_blocks rt order clock hs last (get_block h s).1 pool
  unfolding remove_blocks
  remove_blocks-missed h hs last s pool e = rw (e, remove_blocks) refl

  remove_blocks-found :
      (h : BlockHash) (hs : List (Bool × BlockHash)) (last : Option Block) (s : BlockStore)
      (pool : TxDagMempool) (b : Block)
      → (get_block h s).0 ≡ some b
      → (delete_block rt.crypto true h (get_block h s).1).0 ≡ StoreResult.ok
      → remove_blocks rt order clock ((true, h) ∷ hs) last s pool
        ≡ remove_blocks rt order clock hs
            (some b)
            (delete_block rt.crypto true h (get_block h s).1).1
            (resubmit rt order clock b.transactions pool)
  unfolding remove_blocks
  remove_blocks-found h hs last s pool b e f = rw (e, f, remove_blocks) refl

  remove_blocks-Removed :
      (hs : List BlockHash) (last : Option Block) (s : BlockStore) (pool : TxDagMempool)
      → IsFaithful s
      → Removed (without hs s.blocks) (remove_blocks rt order clock (accepted hs) last s pool)
  unfolding without remove_blocks
  remove_blocks-Removed [] last s pool f = (refl, f, refl)
  remove_blocks-Removed (h ∷ hs) last s pool f =
      let read = get_block-Read h s f in
      let s₁ = (get_block h s).1 in
      elim (Option-cases (get_block h s).0) [
        | inl missed ↦
            let kept : s₁.blocks ≡ remove h s.blocks =
              read.kept ∙ sym (remove_absent h s.blocks (read.missed missed)) in
            rw (remove_blocks-missed h (accepted hs) last s pool missed, sym kept)
              (remove_blocks-Removed hs last s₁ pool read.faithful)
        | inr (b, found) ↦
            let (ok, f₂, gone) = delete_block-IsFaithful rt.crypto h s₁ read.faithful in
            rw
              (
                remove_blocks-found h (accepted hs) last s pool b found ok,
                sym (gone ∙ ap (remove h) read.kept),
              )
              (remove_blocks-Removed hs (some b) (delete_block rt.crypto true h s₁).1
                (resubmit rt order clock b.transactions pool) f₂)
      ]

  -- The result of a rollback, on the list of blocks that remain.
  abbrev Replays :
      Table Block
      → List Block
      → StateManager
      → RollbackResult × BlockStore × StateManager × TxDagMempool
      → Type 0
  Replays rest blocks state r =
      (r.1.blocks ≡ rest)
      × (r.2 ≡ (rebuild_from_blocks rt blocks state).1)
      × ((last : Option Block) × (r.0
            ≡ rollback_report last (rebuild_from_blocks rt blocks state).0))

  rollback_blocks-removed :
      (hs : List (Bool × BlockHash)) (s : BlockStore) (state : StateManager) (pool : TxDagMempool)
      → (remove_blocks rt order clock hs none s pool).0 ≡ StoreResult.ok
      → let removed = remove_blocks rt order clock hs none s pool in
        let rebuilt = rebuild_state rt removed.2 state in
        rollback_blocks rt order clock hs s state pool
        ≡ (rollback_report removed.1 rebuilt.0, rebuilt.2, rebuilt.1, removed.3)
  unfolding rollback_blocks
  rollback_blocks-removed hs s state pool ok = rw (ok, rollback_blocks) refl

  rollback_blocks-Replays :
      (hs : List BlockHash) (s : BlockStore) (state : StateManager) (pool : TxDagMempool)
      → IsSound s
      → let rest = without hs s.blocks in
        Replays rest
          (sort_by_block_height (blocks_of rest))
          state
          (rollback_blocks rt order clock (accepted hs) s state pool)
  unfolding rebuild_state
  rollback_blocks-Replays hs s state pool sound =
      let (ok, f, column) = remove_blocks-Removed hs none s pool (IsSound-IsFaithful s sound) in
      let removed = remove_blocks rt order clock (accepted hs) none s pool in
      let remaining : blocks_of (without hs s.blocks) ≡ (get_all_blocks removed.2).0 =
        sym ((get_all_blocks-stored removed.2 f).0 ∙ ap blocks_of column) in
      rw (rollback_blocks-removed (accepted hs) s state pool ok, remaining)
        ((get_all_blocks-stored removed.2 f).1 ∙ column, refl, (removed.1, refl))

  -- Rolling back some hashes, from a store whose cache agrees with its database, when the
  -- database accepts every write: the column is left without those hashes, and the state is the
  -- one that `rebuild_from_blocks` replays from the blocks that remain, each once and in
  -- ascending order of height. The call succeeds exactly if that replay does, and otherwise
  -- reports its error.
  pub rollback_blocks-eq :
      (hs : List BlockHash) (s : BlockStore) (state : StateManager) (pool : TxDagMempool)
      → IsSound s
      → let r = rollback_blocks rt order clock (accepted hs) s state pool in
        (blocks : List Block) × Perm blocks (blocks_of (without hs s.blocks))
        × IsAscending blocks
        × (r.1.blocks ≡ without hs s.blocks)
        × (r.2 ≡ (rebuild_from_blocks rt blocks state).1)
        × ((last : Option Block) × (r.0
              ≡ rollback_report last (rebuild_from_blocks rt blocks state).0))
  rollback_blocks-eq hs s state pool sound =
      let remaining = blocks_of (without hs s.blocks) in
      let (column, rebuilt, reported) = rollback_blocks-Replays hs s state pool sound in
      (
        sort_by_block_height remaining,
        sort_by_block_height-perm remaining,
        sort_by_block_height-IsAscending remaining,
        column,
        rebuilt,
        reported,
      )

  -- Under the same conditions the rollback succeeds exactly if no block that remains holds a
  -- transfer, since the replay starts from an empty ledger: otherwise it fails, after the blocks
  -- have been deleted.
  pub rollback_blocks_iff :
      (hs : List BlockHash) (s : BlockStore) (state : StateManager) (pool : TxDagMempool)
      → IsSound s
      → let r = rollback_blocks rt order clock (accepted hs) s state pool in
        ((last : Option Block) × (r.0 ≡ RollbackResult.done last))
        ↔ (has_transfer (blocks_of (without hs s.blocks)) ≡ false)
  unfolding rollback_report
  rollback_blocks_iff hs s state pool sound =
      let remaining = blocks_of (without hs s.blocks) in
      let (column, rebuilt, (last, reported)) = rollback_blocks-Replays hs s state pool sound in
      let (only, all_well) = rebuild_from_blocks_iff rt (sort_by_block_height remaining) state in
      let same = has_transfer-sort remaining in
      (
        λ (found, done). sym same ∙ only (rollback_report_done _ _ _ (sym reported ∙ done)),
        λ free. (last, reported ∙ ap (rollback_report last) (all_well (same ∙ free))),
      )
