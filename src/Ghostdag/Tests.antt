-- ===== src/Ghostdag/Tests.antt =====
-- The theorems on GHOSTDAG, at concrete inputs.
use cytah_speed.Prelude.{
  suc, ◌+◌, ◌%◌, ◌^◌, ◌≡◌, ◌↔◌, refl, true, false, none, some, List, [], ◌∷◌, get, insert, length,
  contains, Table, Option,
}
use cytah_speed.Samples.{sample_block, sample_node}
use cytah_speed.Core.Block.{Block, BlockHash}
use cytah_speed.Storage.BlockStore.{sort_keys, insert_key}
use cytah_speed.Dag.Worklist.{walk, enqueue}
use cytah_speed.Dag.Index.{
  get_children, parents_of, all_parents, set_insert, is_ancestor, get_all_ancestors,
}
use cytah_speed.Dag.Order.{
  get_topological_order, sorted_blocks, blocks_at, in_degrees, parentless, order_loop,
  visit_children, visit_child,
}
use cytah_speed.Dag.Order.Complete.{IsTopological}
use cytah_speed.Dag.Engine.{BlockDag, annotate}
use cytah_speed.Ghostdag.Annotation.{annotate_block}
use cytah_speed.Ghostdag.Annotation.Overwritten.{annotate_block_overwritten}
use cytah_speed.Dag.Tests.{
  grown_dag, grown-IsLinked, grown-IsOrderable, root, root_known, stored_child,
}
use cytah_speed.Ghostdag.Traversal.{
  enqueue_other, visit, search_loop, get_ancestors, get_anticone, get_common_ancestors,
  count_ancestors,
}
use cytah_speed.Ghostdag.Traversal.Search.{IsFound, get_ancestors-IsFound}
use cytah_speed.Ghostdag.Traversal.Anticone.{
  in_past, in_every_past, get_anticone_empty, contains-get_common_ancestors,
}
use cytah_speed.Ghostdag.Path.{get_path, path_loop, queue_parents, trace}
use cytah_speed.Ghostdag.Path.Found.{IsPath, get_path-IsPath}
use cytah_speed.Ghostdag.BlueSet.{
  get_all_blocks, get_anticone_size, is_blue, build_blue_set, colour_blue, count_blue_blocks,
  count_red_blocks,
}
use cytah_speed.Ghostdag.BlueSet.Blue.{blue_and_red}
use cytah_speed.Ghostdag.Engine.{
  GhostdagEngine, Outcome, calculate_blue_score, get_blue_score, select_parent,
  select_parent_from_parents,
}
use cytah_speed.Ghostdag.Engine.Scores.{
  score_in, IsSameScores, calculate_blue_score_counts_past, get_blue_score-eq,
}
use cytah_speed.Ghostdag.Engine.Best.{IsBest}
use cytah_speed.Ghostdag.Engine.Selection.{select_parent-IsBest}
use cytah_speed.Ghostdag.Ordering.{generate_ordering, validate_ordering}
use cytah_speed.Ghostdag.Ordering.Validation.{validate_ordering_iff}
use cytah_speed.Ghostdag.Ordering.Generated.{generate_ordering-IsTopological}

-- Two blocks on the first, and one on both.
abbrev diamond : Table Block
diamond =
    (1, sample_block 1 0 [])
    ∷ (2, sample_block 2 1 (1 ∷ []))
    ∷ (3, sample_block 3 1 (1 ∷ []))
    ∷ (4, sample_block 4 2 (2 ∷ 3 ∷ []))
    ∷ []

abbrev diamond_dag : BlockDag
diamond_dag = record {
  store = diamond;
  index = record {
    parent_to_children = (1, 2 ∷ 3 ∷ []) ∷ (2, 4 ∷ []) ∷ (3, 4 ∷ []) ∷ [];
    tips = 4 ∷ [];
  };
}

abbrev attached : GhostdagEngine
attached = record {
  k = 0;
  dag = some diamond_dag;
  blue_score_cache = [];
  blue_set = record { k = 0 };
}

past_two : in_past diamond 4 2 ≡ true
unfolding get_ancestors search_loop visit enqueue_other parents_of all_parents get
past_two = refl

-- A sibling: its anticone is empty, so that it is blue in the set, but not by the test.
sibling_blue : build_blue_set (record { k = 0 }) diamond_dag 2 ≡ 2 ∷ 1 ∷ 3 ∷ []
unfolding build_blue_set colour_blue get_anticone_size get_anticone set_insert get_all_blocks
    get_topological_order sorted_blocks blocks_at sort_keys insert_key in_degrees parentless
    order_loop visit_children visit_child get_children get insert get_ancestors search_loop visit
    enqueue_other parents_of all_parents
sibling_blue = refl

sibling_not_blue : is_blue (record { k = 0 }) diamond 3 2 ≡ false
unfolding is_blue is_ancestor get_all_ancestors walk enqueue parents_of all_parents get
sibling_not_blue = refl

get_ancestors-IsFound_example :
    (result : List BlockHash) × (get_ancestors diamond 4 ≡ some result)
    × IsFound (parents_of diamond) 4 result
get_ancestors-IsFound_example = get_ancestors-IsFound diamond 4

get_anticone_empty_example : get_anticone diamond 2 4 ≡ []
get_anticone_empty_example = get_anticone_empty diamond 2 4 past_two

contains-get_common_ancestors_example :
    contains (get_common_ancestors diamond (2 ∷ 3 ∷ [])) 1 ≡ in_every_past diamond (2 ∷ 3 ∷ []) 1
contains-get_common_ancestors_example = contains-get_common_ancestors diamond 2 (3 ∷ []) 1

calculate_blue_score_counts_past_example :
    (calculate_blue_score 4 attached).0 ≡ Outcome.ok (suc (count_ancestors diamond 4) % 2 ^ 64)
unfolding get
calculate_blue_score_counts_past_example =
    calculate_blue_score_counts_past 4 attached diamond_dag refl refl

get_blue_score-eq_example :
    ((get_blue_score 4 attached).0 ≡ Outcome.ok (score_in attached diamond 4))
    × IsSameScores diamond_dag attached (get_blue_score 4 attached).1
get_blue_score-eq_example = get_blue_score-eq 4 attached diamond_dag refl

select_parent-IsBest_example :
    (best : BlockHash) × ((select_parent 4 attached).0 ≡ Outcome.ok best)
    × ((select_parent_from_parents (2 ∷ 3 ∷ []) attached).0 ≡ Outcome.ok best)
    × IsBest (score_in attached diamond) (2 ∷ 3 ∷ []) best
unfolding parents_of get
select_parent-IsBest_example = select_parent-IsBest diamond_dag attached refl 4 2 (3 ∷ []) refl

abbrev grown_engine : GhostdagEngine
grown_engine = record {
  k = 3;
  dag = some grown_dag;
  blue_score_cache = [];
  blue_set = record { k = 3 };
}

validate_ordering_iff_example :
    (validate_ordering grown_engine (root.hash ∷ stored_child.hash ∷ []) ≡ none)
    ↔ IsTopological grown_dag.store (root.hash ∷ stored_child.hash ∷ [])
validate_ordering_iff_example =
    validate_ordering_iff grown_engine grown_dag (root.hash ∷ stored_child.hash ∷ []) refl
      grown-IsOrderable.keyed

generate_ordering-IsTopological_example :
    (order : List BlockHash) × (generate_ordering grown_engine ≡ Outcome.ok (some order))
    × IsTopological grown_dag.store order
    × (validate_ordering grown_engine order ≡ none)
generate_ordering-IsTopological_example =
    generate_ordering-IsTopological grown_engine grown_dag refl grown-IsLinked grown-IsOrderable

blue_and_red_example :
    count_blue_blocks (record { k = 3 }) grown_dag root.hash
      + count_red_blocks (record { k = 3 }) grown_dag root.hash
    ≡ length grown_dag.store
blue_and_red_example =
    blue_and_red (record { k = 3 }) grown_dag root.hash grown-IsLinked grown-IsOrderable root_known

-- A new block on the two blocks of the grown graph.
abbrev third : Block
third = sample_block 5 0 (root.hash ∷ stored_child.hash ∷ [])

annotate_block_overwritten_example :
    (b' : Block) × (engine' : GhostdagEngine) × (annotate_block sample_node grown_dag third attached
      ≡ some (Outcome.ok b', engine'))
    × (annotate sample_node grown_dag.store b' ≡ annotate sample_node grown_dag.store third)
annotate_block_overwritten_example =
    annotate_block_overwritten sample_node grown_dag third attached grown-IsLinked

get_path-IsPath_example :
    (answer : Option (List BlockHash)) × (get_path diamond 1 4 ≡ some answer)
    × IsPath diamond 4 1 answer
get_path-IsPath_example = get_path-IsPath diamond 1 4

diamond_path : get_path diamond 1 4 ≡ some (some (4 ∷ 2 ∷ 1 ∷ []))
unfolding get_path path_loop queue_parents trace parents_of all_parents get insert
diamond_path = refl
