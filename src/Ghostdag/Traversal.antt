-- ===== src/Ghostdag/Traversal.antt =====
-- The traversals of the graph that GHOSTDAG uses (src/consensus/dag_traversal.rs). A set of
-- hashes is the list of its elements in the order in which they were added.
pub mod Enqueue
pub mod Search
pub mod Anticone
use cytah_speed.Prelude.{
  ℕ, zero, suc, Bool, not, ◌&&◌, ◌||◌, Option, none, some, List, [], ◌∷◌, ◌++◌, ◌==◌, if◌then◌else◌,
  unwrap_or, length, contains, retain, Table, get, insert,
}
use mathlib.Core.List.{reverse}
use cytah_speed.Core.Block.{BlockHash, Block}
use cytah_speed.Dag.Index.{set_insert, get_children, parents_of, all_parents, all_children}

-- The inner `for`: a neighbour that is new and not the start joins the set and the queue.
unfoldable pub enqueue_other :
    BlockHash → List BlockHash → List BlockHash × List BlockHash → List BlockHash × List BlockHash
enqueue_other start [] w = w
enqueue_other start (x ∷ xs) w =
    enqueue_other start xs
      (if contains w.0 x || x == start then w else (w.0 ++ x ∷ [], w.1 ++ x ∷ []))

-- What the loops of `get_ancestors` and `get_descendants` keep.
pub record SearchState : Type 0 where
  pub found : List BlockHash
  pub queue : List BlockHash
  pub visited : List BlockHash

module _ (next : BlockHash → List BlockHash) (start : BlockHash) where
  -- The body of the loop, for the hash taken off the queue.
  unfoldable pub visit : BlockHash → SearchState → SearchState
  visit current s =
      if contains s.visited current
      then s
      else let (found', queue') = enqueue_other start (next current) (s.found, s.queue) in
        record { found = found'; queue = queue'; visited = s.visited ++ current ∷ [] }

  -- `while let Some(current) = queue.pop_front()`; `none` means that the fuel ran out.
  unfoldable pub search_loop :
      ℕ → List BlockHash → List BlockHash → List BlockHash → Option (List BlockHash)
  search_loop fuel found [] visited = some found
  search_loop zero found (current ∷ queue) visited = none
  search_loop (suc fuel) found (current ∷ queue) visited =
      let s = visit current (record { found = found; queue = queue; visited = visited }) in
      search_loop fuel s.found s.queue s.visited

unfoldable pub get_ancestors : Table Block → BlockHash → Option (List BlockHash)
get_ancestors store h =
    search_loop (parents_of store) h (suc (length (all_parents store))) [] (h ∷ []) []

unfoldable pub get_descendants : Table (List BlockHash) → BlockHash → Option (List BlockHash)
get_descendants m h =
    search_loop (λ p. get_children p m) h (suc (length (all_children m))) [] (h ∷ []) []

-- The set that `get_ancestors` returns.
abbrev pub ancestors_of : Table Block → BlockHash → List BlockHash
ancestors_of store h = unwrap_or (get_ancestors store h) []

unfoldable pub get_anticone : Table Block → BlockHash → BlockHash → List BlockHash
unfolding get_ancestors
get_anticone store block_hash reference_hash =
    let reachable = set_insert reference_hash (ancestors_of store reference_hash) in
    retain (λ ancestor. not (contains reachable ancestor)) (ancestors_of store block_hash)

-- The loop of `get_common_ancestors` over the hashes after the first.
unfoldable pub intersect_all : Table Block → List BlockHash → List BlockHash → List BlockHash
intersect_all store [] common = common
intersect_all store (h ∷ hs) common =
    let new_ancestors = set_insert h (ancestors_of store h) in
    intersect_all store hs (retain (contains new_ancestors) common)

unfoldable pub get_common_ancestors : Table Block → List BlockHash → List BlockHash
get_common_ancestors store [] = []
get_common_ancestors store (h ∷ hs) = intersect_all store hs (set_insert h (ancestors_of store h))

unfoldable pub count_ancestors : Table Block → BlockHash → ℕ
count_ancestors store h = length (ancestors_of store h)

unfoldable pub count_descendants : Table (List BlockHash) → BlockHash → ℕ
count_descendants m h = length (unwrap_or (get_descendants m h) [])
