-- ===== src/Dag/Integrity.antt =====
-- The check of the whole graph (`validate` in src/dag/blockdag.rs), and the graphs that
-- insertions grow.
pub mod Grown
pub mod Roots
pub mod Checks
pub mod Verdict
use cytah_speed.Prelude.{
  Bool, ◌&&◌, none, some, List, [], ◌∷◌, ◌==◌, ltb, if◌then◌else◌, length, any, contains, Table,
  keys,
}
use cytah_speed.Core.Block.{BlockHash, Block, Node, to_set}
use cytah_speed.Storage.BlockStore.{StoreResult, sort_keys, all_hashed}
use cytah_speed.Dag.Order.{sorted_blocks}
use cytah_speed.Dag.Engine.{BlockDag, first_missing}

pub data Validity : Type 0 where
  ok hash_mismatch store_failed : Validity
  parent_not_found : BlockHash → BlockHash → Validity
  duplicate_hashes no_blocks genesis_is_tip : Validity

unfoldable pub of_store : StoreResult → Validity
of_store StoreResult.ok = Validity.ok
of_store StoreResult.hash_mismatch = Validity.hash_mismatch
of_store StoreResult.write_failed = Validity.store_failed

-- One check after another: the first failure counts.
unfoldable pub first_failure : Validity → Validity → Validity
first_failure Validity.ok rest = rest
first_failure Validity.hash_mismatch rest = Validity.hash_mismatch
first_failure Validity.store_failed rest = Validity.store_failed
first_failure (Validity.parent_not_found h p) rest = Validity.parent_not_found h p
first_failure Validity.duplicate_hashes rest = Validity.duplicate_hashes
first_failure Validity.no_blocks rest = Validity.no_blocks
first_failure Validity.genesis_is_tip rest = Validity.genesis_is_tip

-- The loop over the blocks and their parents.
unfoldable pub references_exist : Table Block → List Block → Validity
references_exist store [] = Validity.ok
references_exist store (b ∷ bs) =
    let rest = references_exist store bs in
    elim (first_missing store b.header.parent_hashes) [
      | none ↦ rest
      | some p ↦ Validity.parent_not_found b.hash p
    ]

unfoldable pub not_empty : List Block → Validity
not_empty [] = Validity.no_blocks
not_empty (b ∷ bs) = Validity.ok

-- The loop over the blocks that looks at the tips. Whether the block is one of them is not asked.
unfoldable pub tips_are_leaves : List BlockHash → List Block → List Block → Validity
tips_are_leaves tip_set blocks [] = Validity.ok
tips_are_leaves tip_set blocks (b ∷ bs) =
    let rest = tips_are_leaves tip_set blocks bs in
    if length b.header.parent_hashes == 0 && ltb 1 (length tip_set)
    then (if any (λ c. contains c.header.parent_hashes b.hash) blocks
        then Validity.genesis_is_tip
        else rest)
    else rest

unfoldable pub validate : Node → BlockDag → Validity
unfolding of_store first_failure references_exist not_empty tips_are_leaves
validate nd dag =
    let blocks = sorted_blocks dag.store in
    let hashes = sort_keys (keys dag.store) in
    let distinct =
      if length hashes == length (to_set hashes) then Validity.ok else Validity.duplicate_hashes in
    first_failure (of_store (all_hashed nd.crypto blocks)) (
      first_failure (references_exist dag.store blocks) (
        first_failure distinct (
          first_failure (not_empty blocks)
            (tips_are_leaves (to_set dag.index.tips) blocks blocks))))
