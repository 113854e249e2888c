-- ===== src/Execution/Schedule.antt =====
-- The batches of transactions that run side by side (`schedule_parallel_batches` in
-- src/execution/parallel_executor.rs). The colours stand in a vector, at first all zero. The
-- order in which the map of batches iterates is a parameter.
pub mod Colors
pub mod Batches
pub mod Conflicts
pub mod Apart
pub mod Order
use cytah_speed.Prelude.{
  ℕ, zero, suc, ◌+◌, min, Bool, Option, none, some, List, [], ◌∷◌, ◌++◌, map, leb, if◌then◌else◌,
  unwrap_or, length, contains, get_elem?, set, replicate, Table, get, insert, values, u64_max,
}
use cytah_speed.Core.Transaction.{Hash, Transaction, Crypto, tx_hash}
use cytah_speed.Dag.Index.{set_insert}
use cytah_speed.Execution.Access.{neighbors, build_conflict_graph}

-- The map from ids to positions; of two equal ids the later one counts.
unfoldable pub number_from : ℕ → List Hash → Table ℕ → Table ℕ
number_from i [] index = index
number_from i (h ∷ hs) index = number_from (i + 1) hs (insert h i index)

-- `colors[pos]`, for a position in the vector.
abbrev pub color_at : ℕ → List ℕ → ℕ
color_at pos colors = unwrap_or (get_elem? colors pos) 0

-- The loop over the neighbours of one transaction.
unfoldable pub forbidden_colors : Table ℕ → List ℕ → List Hash → List ℕ
forbidden_colors index colors [] = []
forbidden_colors index colors (h ∷ hs) =
    let rest = forbidden_colors index colors hs in
    elim (get h index) [ none ↦ rest | some pos ↦ set_insert (color_at pos colors) rest ]

-- `while forbidden.contains(&color) { color += 1 }`, with fuel.
unfoldable pub first_free : ℕ → List ℕ → ℕ → ℕ
first_free zero forbidden color = color
first_free (suc fuel) forbidden color =
    let rest = first_free fuel forbidden (color + 1) in
    if contains forbidden color then rest else color

-- The body of the colouring loop: as much fuel as there are forbidden colours suffices.
unfoldable pub pick_color : Table (List Hash) → Table ℕ → List ℕ → Hash → ℕ
unfolding forbidden_colors first_free
pick_color edges index colors h =
    let forbidden = forbidden_colors index colors (neighbors h edges) in
    first_free (suc (length forbidden)) forbidden 0

-- The loop, from position i.
unfoldable pub color_from : Table (List Hash) → Table ℕ → ℕ → List Hash → List ℕ → List ℕ
unfolding pick_color
color_from edges index i [] colors = colors
color_from edges index i (h ∷ hs) colors =
    color_from edges index (i + 1) hs (set colors i (pick_color edges index colors h))

-- `batches_map.entry(color).or_insert_with(..).transactions.push(..)`
unfoldable pub push_batch : ℕ → Transaction → Table (List Transaction) → Table (List Transaction)
push_batch color tx batches = insert color (unwrap_or (get color batches) [] ++ tx ∷ []) batches

unfoldable pub push_batches :
    List Transaction → List ℕ → Table (List Transaction) → Table (List Transaction)
unfolding push_batch
push_batches [] colors batches = batches
push_batches (tx ∷ txs) [] batches = batches
push_batches (tx ∷ txs) (color ∷ colors) batches =
    push_batches txs colors (push_batch color tx batches)

module _ (c : Crypto) where
  -- The sort key: the earliest position in the batch.
  unfoldable pub earliest : Table ℕ → List Transaction → ℕ
  earliest index [] = u64_max
  earliest index (tx ∷ txs) =
      min (unwrap_or (get (tx_hash c tx) index) u64_max) (earliest index txs)

  -- The stable sort of the batches by that key.
  unfoldable pub insert_batch :
      Table ℕ → List Transaction → List (List Transaction) → List (List Transaction)
  unfolding earliest
  insert_batch index b [] = b ∷ []
  insert_batch index b (d ∷ ds) =
      let rest = insert_batch index b ds in
      if leb (earliest index b) (earliest index d) then b ∷ d ∷ ds else d ∷ rest

  unfoldable pub sort_batches : Table ℕ → List (List Transaction) → List (List Transaction)
  unfolding insert_batch
  sort_batches index [] = []
  sort_batches index (b ∷ bs) = insert_batch index b (sort_batches index bs)

  unfoldable pub transaction_colors : List Transaction → List ℕ
  unfolding number_from color_from
  transaction_colors txs =
      let hashes = map (tx_hash c) txs in
      color_from (build_conflict_graph c txs) (number_from 0 hashes []) 0 hashes
        (replicate (length txs) 0)

  unfoldable pub schedule_parallel_batches :
      (Table (List Transaction) → Table (List Transaction))
      → List Transaction
      → List (List Transaction)
  unfolding transaction_colors push_batches sort_batches
  schedule_parallel_batches order txs =
      sort_batches (number_from 0 (map (tx_hash c) txs) [])
        (values (order (push_batches txs (transaction_colors txs) [])))
