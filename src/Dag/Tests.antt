-- ===== src/Dag/Tests.antt =====
-- The theorems on the block graph, at concrete inputs.
use cytah_speed.Consensus.Reward.{
  calculate_reward, calculate_base_reward, calculate_activity_multiplier, default_config,
}
use cytah_speed.Dag.Worklist.{walk, enqueue}
use cytah_speed.Prelude.{
  ◌<◌, ◌≡◌, ◌≢◌, refl, List, [], ◌∷◌, true, none, some, arith, get, length, contains, contains_key,
  Table, u64_max, be_bytes, le_bytes, insert,
}
use cytah_speed.Samples.{sample_node, sample_block}
use cytah_speed.Core.Block.{
  Block, BlockHash, new_block, calculate_hash, block_bytes, concat_hashes, metadata_bytes, to_set,
  set_consensus_metadata, validate_basic,
}
use cytah_speed.Dag.Index.{
  get_all_ancestors, get_all_descendants, get_children, all_children, update_tips_after_insert,
  push_child, push_children, set_insert, set_remove, set_remove_all, new_index, parents_of,
  all_parents,
}
use cytah_speed.Dag.Index.Search.{Ancestor, get_all_ancestors_decides}
use cytah_speed.Dag.Engine.{
  BlockDag, DagResult, new_dag, annotate, insert_block, check_block, block_error, or_else,
  check_parents, first_missing, compute_blue_score, max_parent_score, select_parent, best_parent,
  improve,
}
use cytah_speed.Dag.Engine.Parents.{IsLinked, new_IsLinked}
use cytah_speed.Dag.Engine.Linked.{insert_block-IsLinked}
use cytah_speed.Dag.Engine.Tips.{IsIndexed, new_IsIndexed, insert_block-IsIndexed}
use cytah_speed.Dag.Queries.{
  Reached, find_lca, reach_loop, push_unvisited, get_reachable_blocks, get_block_depth,
  get_block_height, get_recent_timestamps, get_timestamps_from_start,
}
use cytah_speed.Dag.Queries.Depth.{IsLevelled, get_block_depth-eq}
use cytah_speed.Dag.Queries.Levelled.{insert_block-IsLevelled}
use cytah_speed.Dag.Queries.Reach.{InPast}
use cytah_speed.Dag.Queries.Ancestors.{IsCommon, find_lca-IsCommon, get_reachable_blocks_decides}
use cytah_speed.Dag.Queries.Timestamps.{get_recent_timestamps-eq}
use cytah_speed.Dag.Order.{get_topological_order}
use cytah_speed.Dag.Order.Complete.{IsTopological, get_topological_order-IsTopological}
use cytah_speed.Dag.Order.Counted.{IsOrderable, insert_block-IsOrderable}
use cytah_speed.Dag.Engine.Duplicates.{insert_block_twice}

abbrev pub genesis : Block
genesis = new_block sample_node [] 900 [] 0 0 1 1 5

abbrev pub genesis_dag : BlockDag
genesis_dag = (insert_block sample_node true genesis new_dag).1

-- The genesis block as it is stored.
abbrev pub root : Block
root = annotate sample_node [] genesis

abbrev pub child : Block
child = new_block sample_node (root.hash ∷ []) 950 [] 0 0 1 1 5

abbrev pub grown_dag : BlockDag
grown_dag = (insert_block sample_node true child genesis_dag).1

fresh_root : get (annotate sample_node new_dag.store genesis).hash new_dag.store ≡ none
unfolding new_dag get
fresh_root = refl

none_stored : length new_dag.store < u64_max
unfolding new_dag
none_stored = omega arith

pub new-IsLinked : IsLinked new_dag.store
unfolding new_dag
new-IsLinked = new_IsLinked

new-IsIndexed : IsIndexed new_dag.store new_dag.index
unfolding new_dag
new-IsIndexed = new_IsIndexed

insert_block-IsLinked_example : IsLinked genesis_dag.store
insert_block-IsLinked_example =
    insert_block-IsLinked sample_node true genesis new_dag new-IsLinked none_stored fresh_root

insert_block-IsIndexed_example : IsIndexed genesis_dag.store genesis_dag.index
insert_block-IsIndexed_example =
    insert_block-IsIndexed sample_node true genesis new_dag new-IsLinked new-IsIndexed fresh_root

genesis-IsLinked : IsLinked genesis_dag.store
genesis-IsLinked =
    insert_block-IsLinked sample_node true genesis new_dag new-IsLinked none_stored fresh_root

abbrev pub stored_child : Block
stored_child = annotate sample_node genesis_dag.store child

-- What running the two insertions gives.
record Run : Type 0 where
  fresh_child : get (annotate sample_node genesis_dag.store child).hash genesis_dag.store ≡ none
  one_stored : length genesis_dag.store < u64_max
  child_stored : get stored_child.hash grown_dag.store ≡ some stored_child
  child_ancestors : get_all_ancestors grown_dag.store stored_child.hash ≡ some (root.hash ∷ [])
  child_changed : stored_child.hash ≢ child.hash
  root_stored : contains_key root.hash grown_dag.store ≡ true
  child_inserted : insert_block sample_node true child genesis_dag ≡ (DagResult.ok, grown_dag)

run : Run
unfolding be_bytes le_bytes get insert new_block calculate_hash block_bytes concat_hashes
    metadata_bytes to_set set_consensus_metadata calculate_reward calculate_base_reward
    calculate_activity_multiplier default_config update_tips_after_insert push_child push_children
    set_insert set_remove set_remove_all get_children new_index get_all_ancestors parents_of
    all_parents walk enqueue new_dag insert_block check_block block_error or_else check_parents
    first_missing annotate compute_blue_score max_parent_score select_parent best_parent improve
    validate_basic
run = record {
  fresh_child = refl;
  one_stored = omega arith;
  child_stored = refl;
  child_ancestors = refl;
  child_changed = λ e. omega (arith, e);
  root_stored = refl;
  child_inserted = refl;
}

pub root_known : contains_key root.hash grown_dag.store ≡ true
root_known = run.root_stored

pub grown-IsLinked : IsLinked grown_dag.store
grown-IsLinked =
    insert_block-IsLinked sample_node true child genesis_dag genesis-IsLinked run.one_stored
      run.fresh_child

get_all_ancestors_decides_example :
    (result : List BlockHash) × (get_all_ancestors grown_dag.store stored_child.hash ≡ some result)
    × ((a : BlockHash)
        → (contains result a ≡ true → Ancestor grown_dag.store stored_child.hash a)
          × (Ancestor grown_dag.store stored_child.hash a → contains result a ≡ true))
get_all_ancestors_decides_example = get_all_ancestors_decides grown_dag.store stored_child.hash

-- A table of children with a cycle.
abbrev cyclic : Table (List BlockHash)
cyclic = (1, 2 ∷ []) ∷ (2, 3 ∷ 1 ∷ []) ∷ []

cyclic_descendants : get_all_descendants cyclic 1 ≡ some (2 ∷ 3 ∷ 1 ∷ [])
unfolding get_all_descendants walk enqueue get_children get all_children
cyclic_descendants = refl

insert_block_twice_example : (insert_block sample_node true child grown_dag).0 ≡ DagResult.ok
unfolding new_block
insert_block_twice_example =
    insert_block_twice sample_node child genesis_dag grown_dag root.hash [] refl run.child_changed
      run.child_inserted

new-IsOrderable : IsOrderable new_dag
unfolding new_dag new_index get_children parents_of get
new-IsOrderable = record { keyed = tt; counted = λ p c. refl }

genesis-IsOrderable : IsOrderable genesis_dag
genesis-IsOrderable =
    insert_block-IsOrderable sample_node true genesis new_dag new-IsOrderable fresh_root

pub grown-IsOrderable : IsOrderable grown_dag
grown-IsOrderable =
    insert_block-IsOrderable sample_node true child genesis_dag genesis-IsOrderable run.fresh_child

get_topological_order-IsTopological_example :
    (order : List BlockHash) × (get_topological_order grown_dag.store grown_dag.index ≡ some order)
    × IsTopological grown_dag.store order
get_topological_order-IsTopological_example =
    get_topological_order-IsTopological grown_dag.store grown-IsLinked grown_dag.index
      grown-IsOrderable.keyed grown-IsOrderable.counted

-- The store of a block (4) on 2 and a block (3) on 1 and 2, where 2 is on 1.
abbrev crossed : Table Block
crossed =
    (1, sample_block 1 0 [])
    ∷ (2, sample_block 2 1 (1 ∷ []))
    ∷ (3, sample_block 3 2 (1 ∷ 2 ∷ []))
    ∷ (4, sample_block 4 2 (2 ∷ []))
    ∷ []

-- The search finds 1 first, although the common ancestor 2 is above it.
crossed_lca : find_lca crossed 4 3 ≡ some (Reached.stopped_at 1)
unfolding find_lca reach_loop push_unvisited get_all_ancestors walk enqueue parents_of all_parents
    get
crossed_lca = refl

find_lca-IsCommon_example :
    (answer : Reached) × (find_lca crossed 4 3 ≡ some answer) × IsCommon crossed 4 3 answer
find_lca-IsCommon_example = find_lca-IsCommon crossed 4 3

get_reachable_blocks_decides_example :
    (result : List BlockHash) × (get_reachable_blocks crossed (4 ∷ [])
      ≡ some (Reached.visited_all result))
    × ((v : BlockHash)
        → (contains result v ≡ true → InPast crossed (4 ∷ []) v)
          × (InPast crossed (4 ∷ []) v → contains result v ≡ true))
get_reachable_blocks_decides_example = get_reachable_blocks_decides crossed (4 ∷ [])

new-IsLevelled : IsLevelled new_dag.store
unfolding new_dag get
new-IsLevelled h b e = cc

genesis-IsLevelled : IsLevelled genesis_dag.store
genesis-IsLevelled =
    insert_block-IsLevelled sample_node true genesis new_dag new-IsLinked new-IsLevelled none_stored
      fresh_root

grown-IsLevelled : IsLevelled grown_dag.store
grown-IsLevelled =
    insert_block-IsLevelled sample_node true child genesis_dag genesis-IsLinked genesis-IsLevelled
      run.one_stored run.fresh_child

get_block_depth-eq_example :
    (get_block_depth grown_dag.store stored_child.hash ≡ some stored_child.height)
    × (get_block_height grown_dag.store stored_child.hash ≡ some (some stored_child.height))
get_block_depth-eq_example =
    get_block_depth-eq grown_dag.store grown-IsLinked grown-IsLevelled stored_child.hash
      stored_child run.child_stored

abbrev crossed_dag : BlockDag
crossed_dag = record {
  store = crossed;
  index = record { parent_to_children = []; tips = 4 ∷ 3 ∷ [] };
}

get_recent_timestamps-eq_example :
    get_recent_timestamps crossed_dag 5 ≡ get_timestamps_from_start crossed 4 5
unfolding get
get_recent_timestamps-eq_example =
    get_recent_timestamps-eq crossed_dag 5 4 (3 ∷ []) (sample_block 4 2 (2 ∷ [])) refl refl
