-- ===== src/Dag/Index.antt =====
-- The index of the graph (src/dag/dag_index.rs). The store is read as the table of its blocks,
-- which is what its reads answer from (Storage.BlockStore.Reads).
pub mod Search
pub mod Updates
use cytah_speed.Prelude.{
  ℕ, suc, ◌+◌, Bool, true, false, not, Option, none, some, List, [], ◌∷◌, ◌++◌, ◌==◌, if◌then◌else◌,
  unwrap_or, length, contains, retain, Table, get, insert, values,
}
use cytah_speed.Core.Block.{BlockHash, Block}
use cytah_speed.Dag.Worklist.{walk}

pub record DagIndex : Type 0 where
  pub parent_to_children : Table (List BlockHash)
  pub tips : List BlockHash

-- `DAGIndex::new`
unfoldable pub new_index : DagIndex
new_index = record { parent_to_children = []; tips = [] }

-- `HashSet::insert` and `HashSet::remove`
unfoldable pub set_insert : ℕ → List ℕ → List ℕ
set_insert x xs = if contains xs x then xs else xs ++ x ∷ []

unfoldable pub set_remove : ℕ → List ℕ → List ℕ
set_remove x xs = retain (λ y. not (y == x)) xs

unfoldable pub set_remove_all : List ℕ → List ℕ → List ℕ
set_remove_all [] tips = tips
set_remove_all (p ∷ ps) tips = set_remove_all ps (set_remove p tips)

unfoldable pub get_children : BlockHash → Table (List BlockHash) → List BlockHash
get_children h m = unwrap_or (get h m) []

-- `entry(parent).or_insert_with(Vec::new).push(child)`
unfoldable pub push_child : BlockHash → BlockHash → Table (List BlockHash) → Table (List BlockHash)
push_child child parent m = insert parent (get_children parent m ++ child ∷ []) m

unfoldable pub push_children :
    BlockHash → List BlockHash → Table (List BlockHash) → Table (List BlockHash)
push_children child [] m = m
push_children child (p ∷ ps) m = push_children child ps (push_child child p m)

unfoldable pub update_tips_after_insert : Block → DagIndex → DagIndex
update_tips_after_insert b index = record {
  parent_to_children = push_children b.hash b.header.parent_hashes index.parent_to_children;
  tips = set_remove_all b.header.parent_hashes (set_insert b.hash index.tips);
}

-- The loops of `build_from_store` over all blocks.
unfoldable pub link_all : List Block → Table (List BlockHash) → Table (List BlockHash)
link_all [] m = m
link_all (b ∷ bs) m = link_all bs (push_children b.hash b.header.parent_hashes m)

unfoldable pub hashes_of : List Block → List BlockHash
hashes_of [] = []
hashes_of (b ∷ bs) = b.hash ∷ hashes_of bs

unfoldable pub drop_parents : List Block → List BlockHash → List BlockHash
drop_parents [] tips = tips
drop_parents (b ∷ bs) tips = drop_parents bs (set_remove_all b.header.parent_hashes tips)

unfoldable pub build_from_store : List Block → DagIndex
build_from_store blocks = record {
  parent_to_children = link_all blocks [];
  tips = drop_parents blocks (hashes_of blocks);
}

-- The parents of a block, none for a block that is not stored.
unfoldable pub parents_of : Table Block → BlockHash → List BlockHash
parents_of store h = elim (get h store) [ none ↦ [] | some b ↦ b.header.parent_hashes ]

-- Every parent and every child that the tables name: as much fuel as the searches need.
unfoldable pub all_parents : Table Block → List BlockHash
all_parents [] = []
all_parents ((k, b) ∷ m) = b.header.parent_hashes ++ all_parents m

unfoldable pub all_children : Table (List BlockHash) → List BlockHash
all_children [] = []
all_children ((k, cs) ∷ m) = cs ++ all_children m

unfoldable pub get_all_ancestors : Table Block → BlockHash → Option (List BlockHash)
get_all_ancestors store h = walk (parents_of store) (suc (length (all_parents store))) ([], h ∷ [])

unfoldable pub get_all_descendants : Table (List BlockHash) → BlockHash → Option (List BlockHash)
get_all_descendants m h = walk (λ p. get_children p m) (suc (length (all_children m))) ([], h ∷ [])

unfoldable pub is_ancestor : Table Block → BlockHash → BlockHash → Bool
is_ancestor store ancestor h = contains (unwrap_or (get_all_ancestors store h) []) ancestor

unfoldable pub is_tip : DagIndex → BlockHash → Bool
is_tip index h = contains index.tips h
