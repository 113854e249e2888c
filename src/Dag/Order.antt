-- ===== src/Dag/Order.antt =====
-- The topological order of the graph (`get_topological_order` in src/dag/dag_index.rs). The
-- blocks of the store come in the order of their hashes (`get_all_blocks` in
-- src/storage/block_store.rs).
pub mod Sorting
pub mod Waiting
pub mod Start
pub mod Loop
pub mod Complete
pub mod Pigeonhole
pub mod Counted
use cytah_speed.Prelude.{
  ℕ, zero, suc, ◌-◌, Option, none, some, List, [], ◌∷◌, ◌++◌, ◌==◌, if◌then◌else◌, length, Table,
  get, insert, keys, u64_max,
}
use cytah_speed.Core.Block.{BlockHash, Block}
use cytah_speed.Storage.BlockStore.{sort_keys}
use cytah_speed.Dag.Index.{DagIndex, get_children}

-- The blocks that are stored under some hashes.
unfoldable pub blocks_at : List BlockHash → Table Block → List Block
blocks_at [] store = []
blocks_at (h ∷ hs) store =
    let rest = blocks_at hs store in elim (get h store) [ none ↦ rest | some b ↦ b ∷ rest ]

-- `store.get_all_blocks()`
unfoldable pub sorted_blocks : Table Block → List Block
unfolding blocks_at
sorted_blocks store = blocks_at (sort_keys (keys store)) store

-- The loop over the blocks: the number of parents of each, and the blocks without parents.
unfoldable pub in_degrees : List Block → Table ℕ → Table ℕ
in_degrees [] degree = degree
in_degrees (b ∷ bs) degree = in_degrees bs (insert b.hash (length b.header.parent_hashes) degree)

unfoldable pub parentless : List Block → List BlockHash
parentless [] = []
parentless (b ∷ bs) =
    let rest = parentless bs in if length b.header.parent_hashes == 0 then b.hash ∷ rest else rest

-- `*count -= 1` on `usize`, which wraps around.
abbrev pub decrement : ℕ → ℕ
decrement n = if n == 0 then u64_max else n - 1

-- The body of the loop over the children of the current block.
unfoldable pub visit_child : BlockHash → Table ℕ × List BlockHash → Table ℕ × List BlockHash
visit_child child (degree, queue) = elim (get child degree) [
  | none ↦ (degree, queue)
  | some n ↦
      (insert child (decrement n) degree, if decrement n == 0 then queue ++ child ∷ [] else queue)
]

unfoldable pub visit_children : List BlockHash → Table ℕ × List BlockHash → Table ℕ × List BlockHash
visit_children [] s = s
visit_children (child ∷ rest) s = visit_children rest (visit_child child s)

-- `while let Some(current) = queue.pop_front()`; `none` means that the fuel ran out.
unfoldable pub order_loop :
    Table (List BlockHash) → ℕ → Table ℕ × List BlockHash → List BlockHash → Option (List BlockHash)
order_loop children fuel (degree, []) result = some result
order_loop children zero (degree, current ∷ queue) result = none
order_loop children (suc fuel) (degree, current ∷ queue) result =
    order_loop children fuel (visit_children (get_children current children) (degree, queue))
      (result ++ current ∷ [])

-- One round for each stored block is enough.
unfoldable pub get_topological_order : Table Block → DagIndex → Option (List BlockHash)
get_topological_order store index =
    let blocks = sorted_blocks store in
    order_loop index.parent_to_children (length store) (in_degrees blocks [], parentless blocks) []
