-- ===== src/Ghostdag/Path.antt =====
-- A path between two blocks (`get_path` in src/consensus/dag_traversal.rs): a breadth-first
-- search backwards that remembers from which block it came to each block.
pub mod Trails
pub mod Found
use cytah_speed.Prelude.{
  ℕ, zero, suc, true, false, Option, none, some, List, [], ◌∷◌, ◌++◌, ◌==◌, if◌then◌else◌, length,
  contains, Table, get, insert,
}
use mathlib.Core.List.{reverse}
use cytah_speed.Core.Block.{BlockHash, Block}
use cytah_speed.Dag.Index.{parents_of, all_parents}

pub record PathState : Type 0 where
  pub visited : List BlockHash
  pub queue : List BlockHash
  pub parent_map : Table BlockHash

-- The loop over the parents of the current block.
unfoldable pub queue_parents : BlockHash → List BlockHash → PathState → PathState
queue_parents current [] s = s
queue_parents current (p ∷ ps) s = queue_parents current ps (
    if contains s.visited p then s else record {
      visited = s.visited ++ p ∷ [];
      queue = s.queue ++ p ∷ [];
      parent_map = insert p current s.parent_map;
    })

-- The loop that reconstructs the path, before the path is turned around; `none` means that the
-- fuel ran out.
unfoldable pub trace : Table BlockHash → ℕ → BlockHash → Option (List BlockHash)
trace parent_map zero curr = none
trace parent_map (suc fuel) curr =
    let rest = λ (p : BlockHash). trace parent_map fuel p in
    elim (get curr parent_map) [
      | none ↦ some (curr ∷ [])
      | some p ↦ elim (rest p) [ none ↦ none | some path ↦ some (curr ∷ path) ]
    ]

-- `while let Some(current) = queue.pop_front()`; the outer `none` means that the fuel ran out.
unfoldable pub path_loop :
    Table Block
    → BlockHash
    → ℕ
    → List BlockHash
    → List BlockHash
    → Table BlockHash
    → Option (Option (List BlockHash))
path_loop store from fuel [] visited parent_map = some none
path_loop store from zero (current ∷ queue) visited parent_map = none
path_loop store from (suc fuel) (current ∷ queue) visited parent_map =
    let s =
      queue_parents current (parents_of store current)
        (record { visited = visited; queue = queue; parent_map = parent_map }) in
    elim (current == from) [
      | true ↦ elim (trace parent_map (length visited) current) [
        | none ↦ none
        | some path ↦ some (some (reverse path))
      ]
      | false ↦ path_loop store from fuel s.queue s.visited s.parent_map
    ]

unfoldable pub get_path : Table Block → BlockHash → BlockHash → Option (Option (List BlockHash))
unfolding trace
get_path store from to =
    path_loop store from (suc (length (all_parents store))) (to ∷ []) (to ∷ []) []
