-- ===== src/Ghostdag/Annotation.antt =====
-- The metadata that GHOSTDAG gives a new block (`annotate_block` in src/consensus/ghostdag.rs).
pub mod Overwritten
use cytah_speed.Prelude.{ℕ, Option, none, some, List, [], ◌∷◌, length, saturating_add}
use cytah_speed.Core.Block.{BlockHash, Block, Node, set_consensus_metadata}
use cytah_speed.Dag.Engine.{BlockDag}
use cytah_speed.Dag.Queries.{get_block_height}
use cytah_speed.Ghostdag.Engine.{
  GhostdagEngine, Outcome, select_parent_from_parents, calculate_blue_score_for_new_block,
}

-- `dag.get_block_height(&parent).unwrap_or(0).saturating_add(1)`; `none` means that the fuel of
-- the depth ran out, where the loop of the source does not end.
unfoldable pub height_above : BlockDag → BlockHash → Option ℕ
height_above dag p = elim (get_block_height dag.store p) [
  | none ↦ some (saturating_add 0 1)
  | some height ↦ elim height [ none ↦ none | some h ↦ some (saturating_add h 1) ]
]

module _ (nd : Node) where
  -- What follows the selection of a parent.
  unfoldable pub annotate_with :
      BlockDag → Block → Option BlockHash → ℕ → GhostdagEngine → Outcome Block × GhostdagEngine
  annotate_with dag b selected_parent chain_height engine =
      let (blue_score, engine') = calculate_blue_score_for_new_block b engine in
      (
        Outcome.ok (
            set_consensus_metadata nd selected_parent blue_score chain_height (length dag.store) b),
        engine',
      )

  -- `none` means that the height of the selected parent is never found.
  unfoldable pub annotate_block :
      BlockDag → Block → GhostdagEngine → Option (Outcome Block × GhostdagEngine)
  unfolding height_above annotate_with
  annotate_block dag b engine = elim b.header.parent_hashes [
    | [] ↦ some (annotate_with dag b none 0 engine)
    | p ∷ ps ↦
        let (result, engine') = select_parent_from_parents (p ∷ ps) engine in
        elim result [
          | Outcome.err e ↦ some (Outcome.err e, engine')
          | Outcome.ok parent ↦ elim (height_above dag parent) [
            | none ↦ none
            | some height ↦ some (annotate_with dag b (some parent) height engine')
          ]
        ]
  ]
