-- ===== src/Dag/Integrity/Verdict.antt =====
-- The verdict of the check on the graphs that insertions grow.
use cytah_speed.Prelude.{
  ◌≡◌, refl, ap, sym, ◌∙◌, true, none, some, List, [], ◌∷◌, arith, ==_self, ◌==◌, ltb,
  if◌then◌else◌, length, contains, Table, get, keys, Bool-cases, inl, inr,
}
use mathlib.Core.List.{Memᴰ}
use cytah_speed.Core.Block.{BlockHash, Block, Node, calculate_hash, to_set}
use cytah_speed.Storage.BlockStore.{sort_keys, all_hashed}
use cytah_speed.Dag.Order.{blocks_at, sorted_blocks}
use cytah_speed.Dag.Order.Sorting.{
  contains-sort_keys, sort_keys-IsDistinct, contains-keys, keys-IsDistinct,
}
use cytah_speed.Dag.Engine.{BlockDag, first_missing}
use cytah_speed.Dag.Integrity.{
  Validity, of_store, first_failure, references_exist, not_empty, tips_are_leaves, validate,
}
use cytah_speed.Dag.Integrity.Grown.{Grown, IsSound, Grown-IsSound}
use cytah_speed.Dag.Integrity.Roots.{tips-NamedRoot}
use cytah_speed.Dag.Integrity.Checks.{
  All-blocks_at, Memᴰ-blocks_at, any-Memᴰ, all_hashed-ok, nothing_missing, references_exist-ok,
  length-to_set_distinct, tips_are_leaves_one, tips_are_leaves_two,
}

Memᴰ-sorted_blocks :
    (store : Table Block) (h : BlockHash) (b : Block)
    → get h store ≡ some b
    → Memᴰ b (sorted_blocks store)
unfolding sorted_blocks
Memᴰ-sorted_blocks store h b e =
    Memᴰ-blocks_at (sort_keys (keys store)) store h b
      (contains-sort_keys (keys store) h ∙ contains-keys store h ∙ ground (arith, e)) e

first_found : (k : BlockHash) (b : Block) (m : Table Block) → get k ((k, b) ∷ m) ≡ some b
unfolding get
first_found k b m = ground (arith, ==_self k)

not_empty-Memᴰ : (b : Block) (bs : List Block) → Memᴰ b bs → not_empty bs ≡ Validity.ok
unfolding not_empty
not_empty-Memᴰ b [] m = elim m [ ]
not_empty-Memᴰ b (x ∷ bs) m = refl

not_empty-sorted_blocks :
    (store : Table Block)
    → not_empty (sorted_blocks store)
      ≡ (if length store == 0 then Validity.no_blocks else Validity.ok)
unfolding not_empty sorted_blocks blocks_at sort_keys
not_empty-sorted_blocks [] = refl
not_empty-sorted_blocks ((k, b) ∷ m) =
    not_empty-Memᴰ b (sorted_blocks ((k, b) ∷ m))
      (Memᴰ-sorted_blocks ((k, b) ∷ m) k b (first_found k b m))
    ∙ ground arith

module _ (nd : Node) (dag : BlockDag) (sound : IsSound nd dag) where
  stored_hashed : of_store (all_hashed nd.crypto (sorted_blocks dag.store)) ≡ Validity.ok
  unfolding of_store sorted_blocks
  stored_hashed =
      rw
        (all_hashed-ok nd.crypto (sorted_blocks dag.store) (
          All-blocks_at (λ b. b.hash ≡ calculate_hash nd.crypto b) (sort_keys (keys dag.store))
            dag.store sound.hashed))
        refl

  stored_references : references_exist dag.store (sorted_blocks dag.store) ≡ Validity.ok
  unfolding sorted_blocks
  stored_references = references_exist-ok dag.store (sorted_blocks dag.store) (
      All-blocks_at (λ b. first_missing dag.store b.header.parent_hashes ≡ none)
        (sort_keys (keys dag.store)) dag.store
        λ h b e.
          nothing_missing dag.store b.header.parent_hashes λ p m.
            let (q, found, lower) = (sound.linked h b e).parents p m in ground (arith, found))

  stored_distinct :
      length (sort_keys (keys dag.store)) ≡ length (to_set (sort_keys (keys dag.store)))
  stored_distinct = sym (
      length-to_set_distinct (sort_keys (keys dag.store))
        (sort_keys-IsDistinct (keys dag.store) (keys-IsDistinct dag.store sound.orderable.keyed)))

  stored_nonempty :
      not_empty (sorted_blocks dag.store)
      ≡ (if length dag.store == 0 then Validity.no_blocks else Validity.ok)
  stored_nonempty = not_empty-sorted_blocks dag.store

  -- The tips, once there are blocks.
  tips_judged :
      tips_are_leaves (to_set dag.index.tips) (sorted_blocks dag.store) (sorted_blocks dag.store)
      ≡ (if ltb 1 (length (to_set dag.index.tips)) then Validity.genesis_is_tip else Validity.ok)
  tips_judged = elim (Bool-cases (ltb 1 (length (to_set dag.index.tips)))) [
    | inr few ↦
        tips_are_leaves_one (to_set dag.index.tips) (sorted_blocks dag.store)
          (sorted_blocks dag.store) few
        ∙ rw few
    | inl many ↦
        let r = tips-NamedRoot nd dag sound (ground arith) in
        let named : contains r.child_block.header.parent_hashes r.root_block.hash ≡ true =
          ap (contains r.child_block.header.parent_hashes)
            (sound.linked r.root r.root_block r.root_stored).keyed
          ∙ r.named in
        tips_are_leaves_two (to_set dag.index.tips) (sorted_blocks dag.store)
          (sorted_blocks dag.store) r.root_block many
          (Memᴰ-sorted_blocks dag.store r.root r.root_block r.root_stored) r.parentless
          (any-Memᴰ (λ c. contains c.header.parent_hashes r.root_block.hash) r.child_block
            (sorted_blocks dag.store)
            (Memᴰ-sorted_blocks dag.store r.child r.child_block r.child_stored) named)
        ∙ rw many
  ]

-- `validate` on a graph that insertions have grown from the empty one (with fewer than 2^64 - 1
-- blocks, and no two blocks with the same hash): it fails with `no_blocks` if the graph is empty,
-- succeeds if there is at most one tip, and fails with `genesis_is_tip` if there are two tips or
-- more.
pub validate_grown :
    (nd : Node) (dag : BlockDag)
    → Grown nd dag
    → validate nd dag ≡ (
        if length dag.store == 0
        then Validity.no_blocks
        else if ltb 1 (length (to_set dag.index.tips))
        then Validity.genesis_is_tip
        else Validity.ok)
unfolding validate first_failure
validate_grown nd dag grown =
    let sound = Grown-IsSound nd dag grown in
    ground (
      arith,
      stored_hashed nd dag sound,
      stored_references nd dag sound,
      stored_distinct nd dag sound,
      stored_nonempty nd dag sound,
      tips_judged nd dag sound,
    )
