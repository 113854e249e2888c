-- ===== src/Ghostdag/Ordering.antt =====
-- The order of all blocks, and its validation (`generate_ordering`, `validate_ordering` and the
-- reports in src/consensus/ghostdag.rs).
pub mod Validation
pub mod Rounds
pub mod Loop
pub mod Generated
use cytah_speed.Prelude.{
  ℕ, zero, suc, Bool, true, false, not, ◌&&◌, Option, none, some, List, [], ◌∷◌, ◌++◌, ◌==◌, ltb,
  if◌then◌else◌, unwrap_or, length, contains, contains_key, retain, all, map, Table, get, insert,
}
use cytah_speed.Core.Block.{BlockHash, Block, is_genesis}
use cytah_speed.Storage.BlockStore.{sort_keys}
use cytah_speed.Dag.Index.{parents_of, set_insert}
use cytah_speed.Dag.Engine.{BlockDag}
use cytah_speed.Ghostdag.BlueSet.{
  get_all_blocks, build_blue_set, build_red_set, get_blue_blocks, get_red_blocks,
}
use cytah_speed.Ghostdag.Engine.{
  GhostdagEngine, GhostdagError, Outcome, calculate_blue_score_immutable, sort_scored,
}

-- The score of every block of a list; the first failure ends the loop.
unfoldable pub score_all : GhostdagEngine → BlockDag → List BlockHash → Table ℕ → Outcome (Table ℕ)
score_all engine dag [] scores = Outcome.ok scores
score_all engine dag (h ∷ hs) scores = elim (calculate_blue_score_immutable engine dag h) [
  | Outcome.ok score ↦ score_all engine dag hs (insert h score scores)
  | Outcome.err e ↦ Outcome.err e
]

unfoldable pub without_parents : Table Block → BlockHash → Bool
without_parents store h = elim (get h store) [ none ↦ false | some b ↦ is_genesis b ]

-- The blocks that can come next: not processed, but all their parents are.
unfoldable pub next_blocks : Table Block → List BlockHash → List BlockHash → List BlockHash
next_blocks store processed hs =
    retain (λ h. not (contains processed h) && all (contains processed) (parents_of store h)) hs

-- A round's blocks in their order.
unfoldable pub ordered_by_score : Table ℕ → List BlockHash → List BlockHash
ordered_by_score scores hs =
    map (λ (x : BlockHash × ℕ). x.0) (sort_scored (map (λ h. (h, unwrap_or (get h scores) 0)) hs))

unfoldable pub insert_all : List BlockHash → List BlockHash → List BlockHash
insert_all [] processed = processed
insert_all (h ∷ hs) processed = insert_all hs (set_insert h processed)

module _ (store : Table Block) (scores : Table ℕ) (all_blocks : List BlockHash) where
  -- `while processed.len() < all_blocks.len()`; `none` means that the fuel ran out.
  unfoldable pub ordering_loop : ℕ → List BlockHash → List BlockHash → Option (List BlockHash)
  ordering_loop zero ordering processed =
      if ltb (length processed) (length all_blocks) then none else some ordering
  ordering_loop (suc fuel) ordering processed = elim (ltb (length processed) (length all_blocks)) [
    | false ↦ some ordering
    | true ↦ elim (ordered_by_score scores (next_blocks store processed all_blocks)) [
      | [] ↦ some ordering
      | h ∷ hs ↦ ordering_loop fuel (ordering ++ h ∷ hs) (insert_all (h ∷ hs) processed)
    ]
  ]

-- `generate_ordering`, with a round of fuel for each block; the inner `none` means that the fuel
-- ran out.
unfoldable pub order_all : GhostdagEngine → BlockDag → Outcome (Option (List BlockHash))
order_all engine dag =
    let all_blocks = get_all_blocks dag in
    elim (score_all engine dag all_blocks []) [
      | Outcome.err e ↦ Outcome.err e
      | Outcome.ok scores ↦
          let genesis_blocks = sort_keys (retain (without_parents dag.store) all_blocks) in
          Outcome.ok (
            ordering_loop dag.store scores all_blocks (length all_blocks) genesis_blocks
              (insert_all genesis_blocks []))
    ]

unfoldable pub generate_ordering : GhostdagEngine → Outcome (Option (List BlockHash))
generate_ordering engine = elim engine.dag [
  | none ↦ Outcome.err GhostdagError.not_attached
  | some dag ↦ order_all engine dag
]

-- `iter().position`
unfoldable pub position : List BlockHash → BlockHash → Option ℕ
position [] p = none
position (x ∷ xs) p =
    let rest = position xs p in
    if x == p then some 0 else elim rest [ none ↦ none | some j ↦ some (suc j) ]

-- The loop over the parents of the block at an index.
unfoldable pub check_placed : List BlockHash → ℕ → BlockHash → List BlockHash → Option GhostdagError
check_placed ordering index h [] = none
check_placed ordering index h (p ∷ ps) =
    let rest = check_placed ordering index h ps in
    elim (position ordering p) [
      | none ↦ some (GhostdagError.parent_missing p h)
      | some j ↦ if not (ltb j index) then some (GhostdagError.parent_after_child p h) else rest
    ]

-- The loop over the ordering from an index on, and the count at its end.
unfoldable pub validate_from :
    Table Block → List BlockHash → ℕ → List BlockHash → List BlockHash → Option GhostdagError
validate_from store ordering index [] seen =
    if not (length seen == length store)
    then some (GhostdagError.wrong_count (length seen) (length store))
    else none
validate_from store ordering index (h ∷ hs) seen =
    let rest = validate_from store ordering (suc index) hs (set_insert h seen) in
    if not (contains_key h store)
    then some (GhostdagError.not_found h)
    else if contains seen h
    then some (GhostdagError.duplicate h)
    else elim (check_placed ordering index h (parents_of store h)) [ some e ↦ some e | none ↦ rest ]

-- `none` stands for `Ok(())`.
unfoldable pub validate_ordering : GhostdagEngine → List BlockHash → Option GhostdagError
validate_ordering engine ordering = elim engine.dag [
  | none ↦ some GhostdagError.not_attached
  | some dag ↦ validate_from dag.store ordering 0 ordering []
]

unfoldable pub get_all_blue_scores : GhostdagEngine → Outcome (Table ℕ)
get_all_blue_scores engine = elim engine.dag [
  | none ↦ Outcome.err GhostdagError.not_attached
  | some dag ↦ score_all engine dag (get_all_blocks dag) []
]

unfoldable pub engine_blue_blocks : BlockHash → GhostdagEngine → Outcome (List BlockHash)
engine_blue_blocks reference engine = elim engine.dag [
  | none ↦ Outcome.err GhostdagError.not_attached
  | some dag ↦ Outcome.ok (get_blue_blocks engine.blue_set dag reference)
]

unfoldable pub engine_red_blocks : BlockHash → GhostdagEngine → Outcome (List BlockHash)
engine_red_blocks reference engine = elim engine.dag [
  | none ↦ Outcome.err GhostdagError.not_attached
  | some dag ↦ Outcome.ok (get_red_blocks engine.blue_set dag reference)
]
