-- ===== src/Dag/Queries.antt =====
-- What the graph answers: depth and height, the lowest common ancestor, reachable blocks,
-- siblings, timestamps and the check of the whole graph (src/dag/dag_index.rs and
-- src/dag/blockdag.rs).
pub mod Depth
pub mod Heights
pub mod Weight
pub mod Reach
pub mod Ancestors
pub mod Levelled
pub mod Timestamps
use cytah_speed.Prelude.{
  ℕ, zero, suc, ◌+◌, ◌/◌, Bool, true, false, not, ◌&&◌, ◌||◌, Option, none, some, List, [], ◌∷◌,
  ◌++◌, ◌==◌, ltb, leb, if◌then◌else◌, unwrap_or, length, any, contains, contains_key, keys, values,
  Table, get,
}
use mathlib.Core.List.{reverse}
use cytah_speed.Core.Transaction.{Transaction}
use cytah_speed.Core.Block.{BlockHash, Block, Node, new_block}
use cytah_speed.Dag.Index.{
  DagIndex, parents_of, all_parents, get_children, set_insert, get_all_ancestors,
}
use cytah_speed.Dag.Order.{sorted_blocks, blocks_at}
use cytah_speed.Dag.Engine.{BlockDag}

-- The parents of the blocks of a level, each once.
unfoldable pub add_parents : List BlockHash → List BlockHash → List BlockHash
add_parents [] next_queue = next_queue
add_parents (p ∷ ps) next_queue = add_parents ps (set_insert p next_queue)

unfoldable pub next_level : Table Block → List BlockHash → List BlockHash → List BlockHash
next_level store [] next_queue = next_queue
next_level store (h ∷ hs) next_queue = next_level store hs (elim (get h store) [
  | none ↦ next_queue
  | some b ↦ add_parents b.header.parent_hashes next_queue
])

-- The loop of `get_block_depth`, level by level; `none` means that the fuel ran out.
unfoldable pub depth_loop : Table Block → ℕ → List BlockHash → ℕ → Option ℕ
depth_loop store zero level depth = none
depth_loop store (suc fuel) level depth = elim (next_level store level []) [
  | [] ↦ some depth
  | h ∷ hs ↦ depth_loop store fuel (h ∷ hs) (depth + 1)
]

-- One round for each stored block is enough on a linked graph; on a cycle the loop never ends.
unfoldable pub get_block_depth : Table Block → BlockHash → Option ℕ
get_block_depth store h = depth_loop store (suc (length store)) (h ∷ []) 0

-- `get_block_height`: the stored height if it is positive, or else the depth. The inner `none`
-- means that the fuel of the depth ran out.
unfoldable pub get_block_height : Table Block → BlockHash → Option (Option ℕ)
get_block_height store h = elim (get h store) [
  | none ↦ none
  | some b ↦
      let stored =
        if ltb 0 b.header.chain_height
        then b.header.chain_height
        else if ltb 0 b.height
        then b.height
        else 0 in
      if ltb 0 stored then some (some stored) else some (get_block_depth store h)
]

-- What a search backwards ends with: the hash it stops at, or all it has visited.
pub data Reached : Type 0 where
  stopped_at : BlockHash → Reached
  visited_all : List BlockHash → Reached

unfoldable pub push_unvisited : List BlockHash → List BlockHash → List BlockHash → List BlockHash
push_unvisited visited [] queue = queue
push_unvisited visited (p ∷ ps) queue =
    push_unvisited visited ps (if contains visited p then queue else queue ++ p ∷ [])

-- The loop that `find_lca` and `get_reachable_blocks` share; the former stops at a common
-- ancestor. `none` means that the fuel ran out.
unfoldable pub reach_loop :
    Table Block → (BlockHash → Bool) → ℕ → List BlockHash → List BlockHash → Option Reached
reach_loop store stop fuel [] visited = some (Reached.visited_all visited)
reach_loop store stop zero (current ∷ queue) visited = none
reach_loop store stop (suc fuel) (current ∷ queue) visited =
    let old = contains visited current in
    let visited' = if old then visited else visited ++ current ∷ [] in
    let queue' = if old then queue else push_unvisited visited' (parents_of store current) queue in
    elim (not old && stop current) [
      | true ↦ some (Reached.stopped_at current)
      | false ↦ reach_loop store stop fuel queue' visited'
    ]

unfoldable pub find_lca : Table Block → BlockHash → BlockHash → Option Reached
find_lca store hash1 hash2 =
    let ancestors1 = unwrap_or (get_all_ancestors store hash1) [] in
    reach_loop store (λ current. contains ancestors1 current || hash1 == current)
      (suc (length (all_parents store))) (hash2 ∷ []) []

unfoldable pub get_reachable_blocks : Table Block → List BlockHash → Option Reached
get_reachable_blocks store hashes =
    reach_loop store (λ current. false) (length hashes + length (all_parents store)) hashes []

-- `get_coparents`: the other children of a block's parents.
unfoldable pub add_children : BlockHash → List BlockHash → List BlockHash → List BlockHash
add_children h [] coparents = coparents
add_children h (c ∷ cs) coparents =
    add_children h cs (if c == h then coparents else set_insert c coparents)

unfoldable pub add_siblings :
    BlockHash → DagIndex → List BlockHash → List BlockHash → List BlockHash
add_siblings h index [] coparents = coparents
add_siblings h index (p ∷ ps) coparents =
    add_siblings h index ps (add_children h (get_children p index.parent_to_children) coparents)

unfoldable pub get_coparents : Table Block → DagIndex → BlockHash → List BlockHash
get_coparents store index h = add_siblings h index (parents_of store h) []

-- The loop of `get_timestamps_from_start` along the selected parents, newest first.
unfoldable pub timestamps_back : Table Block → ℕ → BlockHash → List ℕ
timestamps_back store zero current = []
timestamps_back store (suc left) current = elim (get current store) [
  | none ↦ []
  | some b ↦ elim b.header.selected_parent [
    | none ↦ b.header.timestamp ∷ []
    | some p ↦ b.header.timestamp ∷ timestamps_back store left p
  ]
]

unfoldable pub get_timestamps_from_start : Table Block → BlockHash → ℕ → List ℕ
get_timestamps_from_start store start max = reverse (timestamps_back store max start)

-- `get_tip_blocks`
unfoldable pub get_tip_blocks : BlockDag → List Block
get_tip_blocks dag = blocks_at dag.index.tips dag.store

-- The loop of `get_recent_timestamps`, which holds the current block itself.
unfoldable pub timestamps_of : Table Block → ℕ → Block → List ℕ
timestamps_of store zero current = []
timestamps_of store (suc left) current = elim current.header.selected_parent [
  | none ↦ current.header.timestamp ∷ []
  | some p ↦ elim (get p store) [
    | none ↦ current.header.timestamp ∷ []
    | some parent ↦ current.header.timestamp ∷ timestamps_of store left parent
  ]
]

unfoldable pub get_recent_timestamps : BlockDag → ℕ → List ℕ
get_recent_timestamps dag max = elim (get_tip_blocks dag) [
  | [] ↦ []
  | tip ∷ rest ↦ reverse (timestamps_of dag.store max tip)
]

-- `BlockDAG::get_parents`, the blocks themselves.
unfoldable pub get_parent_blocks : Table Block → BlockHash → List Block
get_parent_blocks store h = blocks_at (parents_of store h) store

-- `get_block_parents`
unfoldable pub get_block_parents : Table Block → BlockHash → Option (List BlockHash)
get_block_parents store h = elim (get h store) [
  | none ↦ none
  | some b ↦ some b.header.parent_hashes
]

-- `create_block_on_tips`, at the time that the clock shows.
unfoldable pub create_block_on_tips : Node → BlockDag → ℕ → List Transaction → Block
create_block_on_tips nd dag now transactions =
    new_block nd dag.index.tips now transactions 0 0 0 0 0
