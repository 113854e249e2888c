-- ===== src/Dag/Engine.antt =====
-- The insertion of blocks into the graph (src/dag/blockdag.rs). The store is the table of its
-- blocks; whether the database accepts the write is a parameter.
pub mod Parents
pub mod Linked
pub mod Tips
pub mod Duplicates
use cytah_speed.Prelude.{
  ℕ, ◌+◌, max, Bool, true, false, not, ◌&&◌, Option, none, some, List, [], ◌∷◌, ◌==◌, leb, ltb,
  if◌then◌else◌, unwrap_or, length, any, contains, Table, get, insert, values, contains_key,
  saturating_add,
}
use cytah_speed.Core.Block.{
  BlockHash, Block, BlockError, BlockResult, Node, validate_basic, set_consensus_metadata,
  is_genesis,
}
use cytah_speed.Dag.Index.{
  DagIndex, new_index, update_tips_after_insert, build_from_store, get_all_ancestors, set_insert,
}

pub record BlockDag : Type 0 where
  pub store : Table Block
  pub index : DagIndex

-- `BlockDAG::new`, on an empty database.
unfoldable pub new_dag : BlockDag
new_dag = record { store = []; index = new_index }

pub data DagError : Type 0 where
  invalid : BlockError → DagError
  already_exists : DagError
  missing_parent : BlockHash → DagError
  second_genesis duplicate write_failed not_genesis : DagError

pub data DagResult : Type 0 where
  ok : DagResult
  err : DagError → DagResult

unfoldable pub first_missing : Table Block → List BlockHash → Option BlockHash
first_missing store [] = none
first_missing store (p ∷ ps) =
    let rest = first_missing store ps in if contains_key p store then rest else some p

-- Step 3 of `insert_block`.
unfoldable pub check_parents : Table Block → List BlockHash → Option DagError
check_parents store [] = if ltb 0 (length store) then some DagError.second_genesis else none
check_parents store (p ∷ ps) = elim (first_missing store (p ∷ ps)) [
  | none ↦ none
  | some h ↦ some (DagError.missing_parent h)
]

-- The loop of step 5: the last parent of greatest height, and that height.
unfoldable pub improve : Table Block → BlockHash → Option BlockHash × ℕ → Option BlockHash × ℕ
improve store p best = elim (get p store) [
  | none ↦ best
  | some b ↦ if leb best.1 b.height then (some p, b.height) else best
]

unfoldable pub best_parent :
    Table Block → List BlockHash → Option BlockHash × ℕ → Option BlockHash × ℕ
best_parent store [] best = best
best_parent store (p ∷ ps) best = best_parent store ps (improve store p best)

-- The selected parent and the chain height that step 5 gives a block.
unfoldable pub select_parent : Table Block → List BlockHash → Option BlockHash × ℕ
select_parent store [] = (none, 0)
select_parent store (p ∷ ps) =
    let (selected, best_height) = best_parent store (p ∷ ps) (none, 0) in
    (selected, saturating_add best_height 1)

unfoldable pub max_parent_score : Table Block → List BlockHash → ℕ → ℕ
max_parent_score store [] score = score
max_parent_score store (p ∷ ps) score =
    max_parent_score store ps
      (elim (get p store) [ none ↦ score | some b ↦ max score b.header.blue_score ])

unfoldable pub compute_blue_score : Table Block → Block → ℕ
compute_blue_score store b = saturating_add (max_parent_score store b.header.parent_hashes 0) 1

-- `result.is_ok()` for a block's own checks.
unfoldable pub block_error : BlockResult → Option DagError
block_error BlockResult.ok = none
block_error (BlockResult.err e) = some (DagError.invalid e)

-- Both halves of a chain of tests: the first error counts.
unfoldable pub or_else : Option DagError → Option DagError → Option DagError
or_else none e = e
or_else (some d) e = some d

module _ (nd : Node) where
  -- Steps 1 to 4 of `insert_block`.
  unfoldable pub check_block : Table Block → Block → Option DagError
  unfolding or_else
  check_block store b = or_else (block_error (validate_basic nd b)) (
      if contains_key b.hash store
      then some DagError.already_exists
      else or_else (check_parents store b.header.parent_hashes) (
          if any (λ existing. existing.hash == b.hash) (values store)
          then some DagError.duplicate
          else none))

  -- Step 5: the block with its selected parent, scores and index, under the hash of that.
  unfoldable pub annotate : Table Block → Block → Block
  annotate store b =
      let (selected, chain_height) = select_parent store b.header.parent_hashes in
      set_consensus_metadata nd selected (compute_blue_score store b) chain_height (length store) b

  unfoldable pub insert_block : Bool → Block → BlockDag → DagResult × BlockDag
  insert_block written b dag = elim (check_block dag.store b) [
    | some e ↦ (DagResult.err e, dag)
    | none ↦
        let annotated = annotate dag.store b in
        if written
        then (
          DagResult.ok,
          record {
            store = insert annotated.hash annotated dag.store;
            index = update_tips_after_insert annotated dag.index;
          },
        )
        else (DagResult.err DagError.write_failed, dag)
  ]

  -- `insert_blocks`: the first failure ends the batch. One flag for each write; the count of
  -- inserted blocks comes back with the result.
  unfoldable pub insert_blocks : List (Bool × Block) → ℕ → BlockDag → DagResult × ℕ × BlockDag
  insert_blocks [] inserted dag = (DagResult.ok, inserted, dag)
  insert_blocks ((written, b) ∷ bs) inserted dag =
      let (result, dag') = insert_block written b dag in
      let rest = insert_blocks bs (inserted + 1) dag' in
      elim result [ ok ↦ rest | err e ↦ (DagResult.err e, inserted, dag') ]

  -- `with_genesis`
  unfoldable pub with_genesis : Bool → Block → DagResult × BlockDag
  with_genesis written genesis =
      if not (is_genesis genesis)
      then (DagResult.err DagError.not_genesis, new_dag)
      else insert_block written genesis new_dag

-- `rebuild_index`
unfoldable pub rebuild_index : BlockDag → BlockDag
rebuild_index dag = record dag { index = build_from_store (values dag.store) }

-- `get_blue_set`: the ancestors and the block itself, for a stored block.
unfoldable pub get_blue_set : Table Block → BlockHash → Option (List BlockHash)
get_blue_set store h =
    if not (contains_key h store)
    then none
    else some (set_insert h (unwrap_or (get_all_ancestors store h) []))
