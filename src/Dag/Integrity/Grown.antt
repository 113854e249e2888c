-- ===== src/Dag/Integrity/Grown.antt =====
-- The graphs that insertions grow from the empty one, and what holds of all of them.
use cytah_speed.Prelude.{
  ◌<◌, ◌≡◌, refl, ap, sym, subst, ◌∙◌, Bool, none, some, [], ◌∷◌, arith, length, Table, get,
  u64_max, inl, inr,
}
use cytah_speed.Core.Block.{BlockHash, Block, Node, calculate_hash, set_consensus_metadata}
use cytah_speed.Dag.Index.{new_index, get_children, parents_of}
use cytah_speed.Dag.Engine.{BlockDag, new_dag, check_block, check_parents, annotate, insert_block}
use cytah_speed.Dag.Engine.Parents.{IsLinked, new_IsLinked}
use cytah_speed.Dag.Engine.Linked.{
  get-insert_cases, insert_block-cases, insert_block-IsLinked, check_block-none, parents-annotate,
}
use cytah_speed.Dag.Engine.Tips.{IsIndexed, new_IsIndexed, insert_block-IsIndexed}
use cytah_speed.Dag.Order.Counted.{IsOrderable, insert_block-IsOrderable}
use cytah_speed.Dag.Queries.Depth.{IsLevelled}
use cytah_speed.Dag.Queries.Levelled.{insert_block-IsLevelled}

-- Every stored block carries its own digest.
abbrev pub IsHashed : Node → Table Block → Type 0
IsHashed nd store =
    (h : BlockHash) (b : Block) → get h store ≡ some b → b.hash ≡ calculate_hash nd.crypto b

-- There is at most one block without parents.
abbrev pub IsRooted : Table Block → Type 0
IsRooted store =
    (h k : BlockHash) (b c : Block)
    → get h store ≡ some b
    → get k store ≡ some c
    → b.header.parent_hashes ≡ []
    → c.header.parent_hashes ≡ []
    → h ≡ k

-- A sequence of calls of `insert_block`, whatever their results, with fewer than 2^64 - 1 stored
-- blocks and no collision of the hashes of different blocks.
pub data Grown (nd : Node) : BlockDag → Type 0 where
  new : Grown nd new_dag
  inserted :
      (written : Bool) (b : Block) (dag : BlockDag)
      → Grown nd dag
      → length dag.store < u64_max
      → get (annotate nd dag.store b).hash dag.store ≡ none
      → Grown nd (insert_block nd written b dag).1

pub record IsSound (nd : Node) (dag : BlockDag) : Type 0 where
  pub linked : IsLinked dag.store
  pub indexed : IsIndexed dag.store dag.index
  pub orderable : IsOrderable dag
  pub levelled : IsLevelled dag.store
  pub hashed : IsHashed nd dag.store
  pub rooted : IsRooted dag.store

not_second :
    (store : Table Block) (h : BlockHash) (c : Block)
    → check_parents store [] ≡ none
    → get h store ≡ some c
    → ⊥
unfolding check_parents get
not_second [] h c e found = cc
not_second ((k, x) ∷ m) h c e found = ground arith

module _ (nd : Node) where
  new_IsSound : IsSound nd new_dag
  unfolding new_dag new_index get get_children parents_of
  new_IsSound = record {
    linked = new_IsLinked;
    indexed = new_IsIndexed;
    orderable = record { keyed = tt; counted = λ p c. refl };
    levelled = λ h b e. cc;
    hashed = λ h b e. cc;
    rooted = λ h k b c e f g i. cc;
  }

  hash-annotate :
      (store : Table Block) (b : Block)
      → (annotate nd store b).hash ≡ calculate_hash nd.crypto (annotate nd store b)
  unfolding annotate set_consensus_metadata calculate_hash
  hash-annotate store b = refl

  insert_block-IsHashed :
      (written : Bool) (b : Block) (dag : BlockDag)
      → IsHashed nd dag.store
      → IsHashed nd (insert_block nd written b dag).1.store
  insert_block-IsHashed written b dag hashed = elim (insert_block-cases nd written b dag) [
    | inl same ↦ subst (λ (d : BlockDag). IsHashed nd d.store) (sym same) hashed
    | inr (passed, added) ↦ rw added λ h c e.
        let a = annotate nd dag.store b in
        elim (get-insert_cases a.hash h a c dag.store e) [
          | inl (same, is_new) ↦
              subst (λ (x : Block). x.hash ≡ calculate_hash nd.crypto x) is_new
                (hash-annotate dag.store b)
          | inr old ↦ hashed h c old
        ]
  ]

  -- A block without parents is only added to an empty graph.
  root_first :
      (store : Table Block) (b : Block) (h : BlockHash) (c : Block)
      → check_block nd store b ≡ none
      → (annotate nd store b).header.parent_hashes ≡ []
      → get h store ≡ some c
      → ⊥
  root_first store b h c passed root found =
      let checked = check_block-none nd store b passed in
      let none_named : b.header.parent_hashes ≡ [] = sym (parents-annotate nd store b) ∙ root in
      not_second store h c (ap (check_parents store) (sym none_named) ∙ checked) found

  insert_block-IsRooted :
      (written : Bool) (b : Block) (dag : BlockDag)
      → IsRooted dag.store
      → IsRooted (insert_block nd written b dag).1.store
  insert_block-IsRooted written b dag rooted = elim (insert_block-cases nd written b dag) [
    | inl same ↦ subst (λ (d : BlockDag). IsRooted d.store) (sym same) rooted
    | inr (passed, added) ↦ rw added λ h k x y e f p q.
        let a = annotate nd dag.store b in
        let old_root : (z : Block) (i : BlockHash) (w : Block)
            → a ≡ z
            → z.header.parent_hashes ≡ []
            → get i dag.store ≡ some w
            → ⊥ =
          λ z i w s r.
            root_first dag.store b i w passed (ap (λ (t : Block). t.header.parent_hashes) s ∙ r) in
        elim (get-insert_cases a.hash h a x dag.store e) [
          | inl (same, is_new) ↦ elim (get-insert_cases a.hash k a y dag.store f) [
            | inl (same', is_new') ↦ sym same ∙ same'
            | inr old ↦ absurd (old_root x k y is_new p old)
          ]
          | inr old ↦ elim (get-insert_cases a.hash k a y dag.store f) [
            | inl (same', is_new') ↦ absurd (old_root y h x is_new' q old)
            | inr old' ↦ rooted h k x y old old' p q
          ]
        ]
  ]

  -- Of every graph that insertions grow from the empty one, whatever their results: each block
  -- stands under its own digest, all its parents are stored and lower, its height is 0 or one
  -- more than a parent's, the tips are exactly the blocks that no block names, the table of
  -- children is in step with the parents, no hash is stored twice, and at most one block has no
  -- parents. (Fewer than 2^64 - 1 blocks, and no two blocks with the same hash.)
  pub Grown-IsSound : (dag : BlockDag) → Grown nd dag → IsSound nd dag
  Grown-IsSound dag Grown.new = new_IsSound
  Grown-IsSound dag (Grown.inserted written b before grown small fresh) =
      let sound = Grown-IsSound before grown in
      record {
        linked = insert_block-IsLinked nd written b before sound.linked small fresh;
        indexed = insert_block-IsIndexed nd written b before sound.linked sound.indexed fresh;
        orderable = insert_block-IsOrderable nd written b before sound.orderable fresh;
        levelled =
            insert_block-IsLevelled nd written b before sound.linked sound.levelled small fresh;
        hashed = insert_block-IsHashed written b before sound.hashed;
        rooted = insert_block-IsRooted written b before sound.rooted;
      }
