-- ===== src/Finality/Tests.antt =====
-- The theorem on finality at a concrete graph, and a graph on which a final block stops being
-- final.
use cytah_speed.Prelude.{
  ℕ, zero, suc, ◌/◌, ◌≡◌, refl, true, false, List, [], ◌∷◌, ◌++◌, get, insert, Table, unwrap_or,
}
use cytah_speed.Consensus.Reward.{Floats}
use cytah_speed.Samples.{sample_block, sample_floats}
use cytah_speed.Core.Block.{Block, BlockHash}
use cytah_speed.Storage.BlockStore.{sort_keys, insert_key}
use cytah_speed.Dag.Index.{get_children, parents_of, all_parents, set_insert, get_all_ancestors}
use cytah_speed.Dag.Worklist.{walk, enqueue}
use cytah_speed.Dag.Order.{
  get_topological_order, sorted_blocks, blocks_at, in_degrees, parentless, order_loop,
  visit_children, visit_child,
}
use cytah_speed.Dag.Queries.{
  get_block_height, get_block_depth, depth_loop, next_level, add_parents, get_block_parents,
}
use cytah_speed.Dag.Engine.{BlockDag, get_blue_set}
use cytah_speed.Finality.{
  FinalityEngine, new_with_k, height_of, scan_ordering, get_blue_score, best_blue, vsp_of,
  compute_single_vsp, compute_vsps, head_score, calculate_finality_threshold, mark_finalized,
  calculate_score_based_finality, is_finalized, finalize_order, compute_finality,
}

-- A tenth of a number, rounded down.
abbrev tenths : Floats
tenths = record sample_floats { fraction = λ a b. b; mul = λ x y. x / y }

-- A chain of the blocks 1 to n.
abbrev chain : ℕ → Table Block
chain zero = []
chain (suc n) = (suc n, sample_block (suc n) n (if_positive n)) ∷ chain n
  where
    if_positive : ℕ → List BlockHash
    if_positive zero = []
    if_positive (suc m) = suc m ∷ []

abbrev links : ℕ → Table (List BlockHash)
links zero = []
links (suc n) = (suc n, suc (suc n) ∷ []) ∷ links n

abbrev chain_dag : BlockDag
chain_dag = record {
  store = chain 10;
  index = record { parent_to_children = links 9; tips = 10 ∷ [] };
}

-- One more block on the first.
abbrev forked_dag : BlockDag
forked_dag = record {
  store = chain 10 ++ (11, sample_block 11 1 (1 ∷ [])) ∷ [];
  index = record { parent_to_children = insert 1 (2 ∷ 11 ∷ []) (links 9); tips = 10 ∷ 11 ∷ [] };
}

order_chain :
    unwrap_or (get_topological_order chain_dag.store chain_dag.index) []
    ≡ 1 ∷ 2 ∷ 3 ∷ 4 ∷ 5 ∷ 6 ∷ 7 ∷ 8 ∷ 9 ∷ 10 ∷ []
unfolding get_topological_order sorted_blocks blocks_at sort_keys insert_key in_degrees parentless
    order_loop visit_children visit_child get_children get insert
order_chain = refl

order_forked :
    unwrap_or (get_topological_order forked_dag.store forked_dag.index) []
    ≡ 1 ∷ 2 ∷ 11 ∷ 3 ∷ 4 ∷ 5 ∷ 6 ∷ 7 ∷ 8 ∷ 9 ∷ 10 ∷ []
unfolding get_topological_order sorted_blocks blocks_at sort_keys insert_key in_degrees parentless
    order_loop visit_children visit_child get_children get insert
order_forked = refl

abbrev before : FinalityEngine
before = (compute_finality tenths chain_dag (new_with_k 6 2)).1

-- The block 8 is final in the chain, and no more so after a block has been put on the first one.
record Run : Type 0 where
  final : is_finalized 8 before ≡ true
  revoked : is_finalized 8 (compute_finality tenths forked_dag before).1 ≡ false

run : Run
unfolding get_topological_order sorted_blocks blocks_at sort_keys insert_key in_degrees parentless
    order_loop visit_children visit_child get_children get insert get_block_height get_block_depth
    depth_loop next_level add_parents get_block_parents get_blue_set get_all_ancestors walk enqueue
    parents_of all_parents set_insert new_with_k height_of scan_ordering get_blue_score best_blue
    vsp_of compute_single_vsp compute_vsps head_score calculate_finality_threshold mark_finalized
    calculate_score_based_finality is_finalized finalize_order compute_finality
run = record { final = refl; revoked = refl }
