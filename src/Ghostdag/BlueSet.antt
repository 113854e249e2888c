-- ===== src/Ghostdag/BlueSet.antt =====
-- The colouring of the graph (src/consensus/blue_set.rs).
pub mod Blue
use cytah_speed.Prelude.{
  ℕ, Bool, true, false, not, ◌&&◌, List, [], ◌∷◌, ◌==◌, leb, if◌then◌else◌, unwrap_or, length,
  contains, retain, all, Table,
}
use cytah_speed.Core.Block.{BlockHash, Block}
use cytah_speed.Storage.BlockStore.{sort_keys}
use cytah_speed.Dag.Index.{set_insert, is_ancestor}
use cytah_speed.Dag.Order.{get_topological_order}
use cytah_speed.Dag.Engine.{BlockDag}
use cytah_speed.Ghostdag.Traversal.{ancestors_of, get_anticone}

pub record BlueSet : Type 0 where
  pub k : ℕ

-- `BlueSet::new`
unfoldable pub new_blue_set : ℕ → BlueSet
new_blue_set k = record { k = k }

unfoldable pub get_all_blocks : BlockDag → List BlockHash
get_all_blocks dag = unwrap_or (get_topological_order dag.store dag.index) []

module _ (s : BlueSet) where
  unfoldable pub get_anticone_size : Table Block → BlockHash → BlockHash → ℕ
  get_anticone_size store block_hash reference_hash =
      length (get_anticone store block_hash reference_hash)

  -- The loop of `build_blue_set` over the blocks.
  unfoldable pub colour_blue :
      Table Block → BlockHash → List BlockHash → List BlockHash → List BlockHash
  unfolding get_anticone_size
  colour_blue store reference_hash [] blue = blue
  colour_blue store reference_hash (h ∷ hs) blue = colour_blue store reference_hash hs (
      if h == reference_hash
      then blue
      else if leb (get_anticone_size store h reference_hash) s.k
      then set_insert h blue
      else blue)

  unfoldable pub build_blue_set : BlockDag → BlockHash → List BlockHash
  build_blue_set dag reference_hash =
      colour_blue dag.store reference_hash (get_all_blocks dag) (reference_hash ∷ [])

  unfoldable pub build_red_set : BlockDag → BlockHash → List BlockHash
  build_red_set dag reference_hash =
      let blue = build_blue_set dag reference_hash in
      retain (λ h. not (contains blue h)) (get_all_blocks dag)

  unfoldable pub is_blue : Table Block → BlockHash → BlockHash → Bool
  unfolding get_anticone_size
  is_blue store block_hash reference_hash =
      if not (block_hash == reference_hash) && not (is_ancestor store block_hash reference_hash)
      then false
      else leb (get_anticone_size store block_hash reference_hash) s.k

  unfoldable pub count_blue_blocks : BlockDag → BlockHash → ℕ
  count_blue_blocks dag reference_hash = length (build_blue_set dag reference_hash)

  unfoldable pub count_red_blocks : BlockDag → BlockHash → ℕ
  count_red_blocks dag reference_hash = length (build_red_set dag reference_hash)

  unfoldable pub get_blue_blocks : BlockDag → BlockHash → List BlockHash
  get_blue_blocks dag reference_hash = sort_keys (build_blue_set dag reference_hash)

  unfoldable pub get_red_blocks : BlockDag → BlockHash → List BlockHash
  get_red_blocks dag reference_hash = sort_keys (build_red_set dag reference_hash)

  unfoldable pub are_all_ancestors_blue : BlockDag → BlockHash → BlockHash → Bool
  are_all_ancestors_blue dag block_hash reference_hash =
      all (contains (build_blue_set dag reference_hash)) (ancestors_of dag.store block_hash)
