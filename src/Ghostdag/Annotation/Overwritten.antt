-- ===== src/Ghostdag/Annotation/Overwritten.antt =====
-- The insertion into the graph forgets what GHOSTDAG has chosen for a block.
use cytah_speed.Prelude.{
  ℕ, ◌≡◌, refl, Option, none, some, inl, inr, arith, Table, List-cases, length, get, Option-cases,
  saturating_add,
}
use cytah_speed.Core.Block.{BlockHash, Block, Node, set_consensus_metadata, calculate_hash}
use cytah_speed.Dag.Engine.{BlockDag, annotate, compute_blue_score}
use cytah_speed.Ghostdag.Engine.{
  GhostdagEngine, Outcome, get_blue_score, improve_parent, score_or_zero,
  select_parent_from_parents, calculate_blue_score_for_new_block,
}
use cytah_speed.Dag.Engine.Parents.{IsLinked}
use cytah_speed.Dag.Queries.{get_block_height}
use cytah_speed.Dag.Queries.Heights.{get_block_height_returns}
use cytah_speed.Ghostdag.Annotation.{height_above, annotate_with, annotate_block}

get_block_height_missing :
    (store : Table Block) (h : BlockHash) → get h store ≡ none → get_block_height store h ≡ none
unfolding get_block_height
get_block_height_missing store h e = ground (arith, e)

height_above_found :
    (dag : BlockDag)
    → IsLinked dag.store
    → (p : BlockHash) → (height : ℕ) × (height_above dag p ≡ some height)
unfolding height_above
height_above_found dag linked p = elim (Option-cases (get p dag.store)) [
  | inl e ↦ (saturating_add 0 1, ground (arith, get_block_height_missing dag.store p e))
  | inr (q, e) ↦
      let (height, found) = get_block_height_returns dag.store linked p q e in
      (saturating_add height 1, ground (arith, found))
]

module _ (nd : Node) where
  annotate-set_consensus_metadata :
      (store : Table Block) (selected_parent : Option BlockHash)
      (blue_score chain_height topo_index : ℕ) (b : Block)
      → annotate nd store
          (set_consensus_metadata nd selected_parent blue_score chain_height topo_index b)
        ≡ annotate nd store b
  unfolding annotate set_consensus_metadata calculate_hash compute_blue_score
  annotate-set_consensus_metadata store selected_parent blue_score chain_height topo_index b = refl

  annotate_with-cases :
      (dag : BlockDag) (b : Block) (selected_parent : Option BlockHash) (chain_height : ℕ)
      (engine : GhostdagEngine)
      → (b' : Block) × ((annotate_with nd dag b selected_parent chain_height engine).0
          ≡ Outcome.ok b')
        × (annotate nd dag.store b' ≡ annotate nd dag.store b)
  unfolding annotate_with
  annotate_with-cases dag b selected_parent chain_height engine =
      let blue_score = (calculate_blue_score_for_new_block b engine).0 in
      (
        set_consensus_metadata nd selected_parent blue_score chain_height (length dag.store) b,
        refl,
        annotate-set_consensus_metadata dag.store selected_parent blue_score chain_height
            (length dag.store) b,
      )

  -- For every linked graph, every block and every engine: `annotate_block` ends and succeeds, and
  -- the block that `insert_block` would store from its result is the one that it would store from
  -- the block itself: what GHOSTDAG chose as selected parent, blue score and height is computed
  -- anew and lost.
  pub annotate_block_overwritten :
      (dag : BlockDag) (b : Block) (engine : GhostdagEngine)
      → IsLinked dag.store
      → (b' : Block) × (engine' : GhostdagEngine) × (annotate_block nd dag b engine
          ≡ some (Outcome.ok b', engine'))
        × (annotate nd dag.store b' ≡ annotate nd dag.store b)
  unfolding annotate_block select_parent_from_parents
  annotate_block_overwritten dag b engine linked = elim (List-cases b.header.parent_hashes) [
    | inl e ↦
        let (b', f, same) = annotate_with-cases dag b none 0 engine in
        (b', (annotate_with nd dag b none 0 engine).1, ground (arith, e, f), same)
    | inr (p, ps, e) ↦
        let (result, engine₁) = get_blue_score p engine in
        let (best, engine₂) = improve_parent ps (p, score_or_zero result) engine₁ in
        let (height, found) = height_above_found dag linked best in
        let (b', f, same) = annotate_with-cases dag b (some best) height engine₂ in
        (
          b',
          (annotate_with nd dag b (some best) height engine₂).1,
          ground (arith, e, found, f),
          same,
        )
  ]
