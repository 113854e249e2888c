-- ===== src/Dag/Engine/Duplicates.antt =====
-- The test for duplicates looks for the hash that a block arrives with, but a block is stored
-- under the hash that its annotation gives it.
use cytah_speed.Prelude.{
  ◌≡◌, ◌≢◌, refl, Bool, true, false, none, List, [], ◌∷◌, arith, ◌==◌, any, Table, insert, values,
}
use cytah_speed.Core.Block.{BlockHash, Block, Node}
use cytah_speed.Dag.Index.Updates.{contains_key-insert}
use cytah_speed.Dag.Engine.{
  BlockDag, DagResult, first_missing, check_parents, check_block, annotate, insert_block,
}

any-insert :
    (test : Block → Bool) (k : BlockHash) (v : Block) (m : Table Block)
    → test v ≡ false
    → any test (values m) ≡ false
    → any test (values (insert k v m)) ≡ false
unfolding insert
any-insert test k v [] h e = rw h
any-insert test k v ((i, w) ∷ m) h e = ground (arith, any-insert test k v m h)

first_missing-insert :
    (k : BlockHash) (v : Block) (m : Table Block) (ps : List BlockHash)
    → first_missing m ps ≡ none
    → first_missing (insert k v m) ps ≡ none
unfolding first_missing
first_missing-insert k v m [] e = refl
first_missing-insert k v m (p ∷ ps) e =
    ground (arith, first_missing-insert k v m ps, contains_key-insert k p v m)

check_parents-insert :
    (k : BlockHash) (v : Block) (m : Table Block) (p : BlockHash) (ps : List BlockHash)
    → check_parents m (p ∷ ps) ≡ none
    → check_parents (insert k v m) (p ∷ ps) ≡ none
unfolding check_parents
check_parents-insert k v m p ps e =
    let found : first_missing m (p ∷ ps) ≡ none = ground arith in
    rw (first_missing-insert k v m (p ∷ ps) found, check_parents)

module _ (nd : Node) where
  check_block-insert :
      (a b : Block) (m : Table Block) (p : BlockHash) (ps : List BlockHash)
      → b.header.parent_hashes ≡ p ∷ ps
      → a.hash ≢ b.hash
      → check_block nd m b ≡ none
      → check_block nd (insert a.hash a m) b ≡ none
  unfolding check_block
  check_block-insert a b m p ps parents ne e =
      let checked : check_parents m (p ∷ ps) ≡ none = ground arith in
      let unseen : any (λ existing. existing.hash == b.hash) (values m) ≡ false = ground arith in
      ground (
        arith,
        check_parents-insert a.hash a m p ps checked,
        contains_key-insert a.hash b.hash a m,
        any-insert (λ existing. existing.hash == b.hash) a.hash a m (ground arith) unseen,
      )

  -- A block with parents whose annotation changes its hash can be inserted again: once it has
  -- been inserted, a second insertion of the same block succeeds as well.
  pub insert_block_twice :
      (b : Block) (dag dag' : BlockDag) (p : BlockHash) (ps : List BlockHash)
      → b.header.parent_hashes ≡ p ∷ ps
      → (annotate nd dag.store b).hash ≢ b.hash
      → insert_block nd true b dag ≡ (DagResult.ok, dag')
      → (insert_block nd true b dag').0 ≡ DagResult.ok
  unfolding insert_block
  insert_block_twice b dag dag' p ps parents ne inserted =
      let (passed, added) = added_block in
      let again = check_block-insert (annotate nd dag.store b) b dag.store p ps parents ne passed in
      rw (added, insert_block, again) refl
    where
      added_block :
          (check_block nd dag.store b ≡ none)
          × (dag'.store ≡ insert (annotate nd dag.store b).hash (annotate nd dag.store b) dag.store)
      added_block = ground arith
