-- ===== src/Dag/IntegrityTests.antt =====
-- The check of the whole graph, on a graph of three blocks with two tips.
use cytah_speed.Consensus.Reward.{
  calculate_reward, calculate_base_reward, calculate_activity_multiplier, default_config,
}
use cytah_speed.Prelude.{
  ◌<◌, ◌≡◌, refl, [], ◌∷◌, true, none, arith, get, length, u64_max, be_bytes, le_bytes, insert, ltb,
  ◌==◌, if◌then◌else◌,
}
use cytah_speed.Samples.{sample_node}
use cytah_speed.Core.Block.{
  Block, new_block, calculate_hash, block_bytes, concat_hashes, metadata_bytes, to_set,
  set_consensus_metadata, validate_basic,
}
use cytah_speed.Dag.Index.{
  get_children, update_tips_after_insert, push_child, push_children, set_insert, set_remove,
  set_remove_all, new_index,
}
use cytah_speed.Dag.Engine.{
  BlockDag, new_dag, annotate, insert_block, check_block, block_error, or_else, check_parents,
  first_missing, compute_blue_score, max_parent_score, select_parent, best_parent, improve,
}
use cytah_speed.Dag.Tests.{genesis, root, child, genesis_dag, grown_dag}
use cytah_speed.Dag.Integrity.{Validity, validate}
use cytah_speed.Dag.Integrity.Grown.{Grown, IsSound, Grown-IsSound}
use cytah_speed.Dag.Integrity.Verdict.{validate_grown}

abbrev sibling : Block
sibling = new_block sample_node (root.hash ∷ []) 970 [] 0 0 1 1 5

abbrev pub forked_dag : BlockDag
forked_dag = (insert_block sample_node true sibling grown_dag).1

-- What running the three insertions gives.
record Run : Type 0 where
  no_block : get (annotate sample_node new_dag.store genesis).hash new_dag.store ≡ none
  none_yet : length new_dag.store < u64_max
  fresh_child : get (annotate sample_node genesis_dag.store child).hash genesis_dag.store ≡ none
  one_stored : length genesis_dag.store < u64_max
  fresh_sibling : get (annotate sample_node grown_dag.store sibling).hash grown_dag.store ≡ none
  two_stored : length grown_dag.store < u64_max
  two_tips : length (to_set forked_dag.index.tips) ≡ 2
  three_stored : length forked_dag.store ≡ 3

run : Run
unfolding be_bytes le_bytes get insert new_block calculate_hash block_bytes concat_hashes
    metadata_bytes to_set set_consensus_metadata calculate_reward calculate_base_reward
    calculate_activity_multiplier default_config update_tips_after_insert push_child push_children
    set_insert set_remove set_remove_all get_children new_index new_dag insert_block check_block
    block_error or_else check_parents first_missing annotate compute_blue_score max_parent_score
    select_parent best_parent improve validate_basic
run = record {
  no_block = refl;
  none_yet = omega arith;
  fresh_child = refl;
  one_stored = omega arith;
  fresh_sibling = refl;
  two_stored = omega arith;
  two_tips = refl;
  three_stored = refl;
}

genesis-Grown : Grown sample_node genesis_dag
genesis-Grown = Grown.inserted true genesis new_dag Grown.new run.none_yet run.no_block

grown-Grown : Grown sample_node grown_dag
grown-Grown = Grown.inserted true child genesis_dag genesis-Grown run.one_stored run.fresh_child

pub forked-Grown : Grown sample_node forked_dag
forked-Grown = Grown.inserted true sibling grown_dag grown-Grown run.two_stored run.fresh_sibling

Grown-IsSound_example : IsSound sample_node forked_dag
Grown-IsSound_example = Grown-IsSound sample_node forked_dag forked-Grown

validate_grown_example : validate sample_node forked_dag ≡ (
    if length forked_dag.store == 0
    then Validity.no_blocks
    else if ltb 1 (length (to_set forked_dag.index.tips))
    then Validity.genesis_is_tip
    else Validity.ok)
validate_grown_example = validate_grown sample_node forked_dag forked-Grown

-- So a fork below which nothing is wrong fails the check.
fork_refused : validate sample_node forked_dag ≡ Validity.genesis_is_tip
fork_refused =
    ground
      (arith, validate_grown sample_node forked_dag forked-Grown, run.two_tips, run.three_stored)
