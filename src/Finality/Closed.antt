-- ===== src/Finality/Closed.antt =====
-- What is final is closed under ancestors, and lies k below the newest blocks.
use cytah_speed.Prelude.{ℕ, ◌+◌, ◌≤◌, ◌≡◌, ◌⊎◌, true, some, contains, contains_key, Table, get}
use cytah_speed.Core.Block.{BlockHash, Block}
use cytah_speed.Dag.Index.{parents_of}
use cytah_speed.Finality.{FinalityEngine, head_score, is_finalized}

-- What holds of the final blocks of an engine.
pub record IsFinal (store : Table Block) (engine : FinalityEngine) : Type 0 where
  -- Only stored blocks are final, and all their parents are final too.
  pub stored : (h : BlockHash) → is_finalized h engine ≡ true → contains_key h store ≡ true
  pub closed :
      (h p : BlockHash)
      → is_finalized h engine ≡ true
      → contains (parents_of store h) p ≡ true
      → is_finalized p engine ≡ true
  -- A final block is the first of the order, or at least k positions before the last.
  pub deep :
      (h : BlockHash)
      → is_finalized h engine ≡ true
      → (s : ℕ) × (get h engine.block_scores ≡ some s)
        × ((s ≡ 0) ⊎ (s + engine.k ≤ head_score engine.block_scores))
