-- ===== src/Dag/Engine/Tips.antt =====
-- Insertion keeps the index in step with the store.
use cytah_speed.Prelude.{
  ◌≡◌, refl, ap, sym, subst, ◌∙◌, Bool, true, false, not, ◌&&◌, ◌||◌, none, List, [], arith, ◌==◌,
  ==_iff, ==_self, contains, if◌then◌else◌, Table, get, insert, contains_key, Bool-cases,
  Option-cases, inl, inr,
}
use cytah_speed.Core.Block.{BlockHash, Block, Node}
use cytah_speed.Dag.Index.{
  DagIndex, get_children, parents_of, update_tips_after_insert, set_insert, new_index,
}
use cytah_speed.Dag.Index.Updates.{
  contains-set_insert, contains-set_remove_all, contains-push_children, parents_of-insert,
  parents_of_absent, parents_of_stored, contains_key-insert,
}
use cytah_speed.Dag.Engine.{BlockDag, annotate, insert_block}
use cytah_speed.Dag.Engine.Parents.{IsLinked}
use cytah_speed.Dag.Engine.Linked.{insert_block-cases}

-- The tips are the stored blocks that no stored block names as a parent, and the children of a
-- hash are the stored blocks that name it.
pub record IsIndexed (store : Table Block) (index : DagIndex) : Type 0 where
  pub stored_tip : (h : BlockHash) → contains index.tips h ≡ true → contains_key h store ≡ true
  pub leaf_tip :
      (h c : BlockHash) → contains index.tips h ≡ true → contains (parents_of store c) h ≡ false
  pub every_tip :
      (h : BlockHash)
      → contains_key h store ≡ true
      → ((c : BlockHash) → contains (parents_of store c) h ≡ false)
      → contains index.tips h ≡ true
  pub children :
      (p c : BlockHash)
      → contains (get_children p index.parent_to_children) c ≡ contains (parents_of store c) p

pub new_IsIndexed : IsIndexed [] new_index
unfolding new_index parents_of get get_children
new_IsIndexed = record {
  stored_tip = λ h e. cc;
  leaf_tip = λ h c e. cc;
  every_tip = λ h e f. cc;
  children = λ p c. refl;
}

-- A hash that is not stored is nobody's parent and has no parents.
pub not_a_parent :
    (store : Table Block) (k c : BlockHash)
    → IsLinked store
    → get k store ≡ none
    → contains (parents_of store c) k ≡ false
not_a_parent store k c linked fresh = elim (Option-cases (get c store)) [
  | inl e ↦ rw (parents_of_absent store c e)
  | inr (b, e) ↦ elim (Bool-cases (contains b.header.parent_hashes k)) [
    | inl named ↦
        let (q, found, lower) = (linked c b e).parents k named in
        absurd (ground (arith, found, fresh))
    | inr free ↦ rw (parents_of_stored store c b e) free
  ]
]

IsIndexed-insert :
    (a : Block) (store : Table Block) (index : DagIndex)
    → get a.hash store ≡ none
    → IsLinked store
    → IsIndexed store index
    → IsIndexed (insert a.hash a store) (update_tips_after_insert a index)
unfolding update_tips_after_insert
IsIndexed-insert a store index fresh linked indexed = record {
  stored_tip = λ h e. ground (arith, tip h, key h, indexed.stored_tip h);
  leaf_tip = λ h c e. ground (
    arith,
    tip h,
    named c h,
    indexed.leaf_tip h c,
    not_a_parent store a.hash c linked fresh,
    ==_iff a.hash h,
  );
  every_tip = λ h e free.
      let old : (c : BlockHash) → contains (parents_of store c) h ≡ false =
        λ c. ground (arith, free c, named c h, unnamed h, ==_iff a.hash c) in
      ground (
        arith,
        tip h,
        key h,
        indexed.every_tip h,
        old,
        free a.hash,
        named a.hash h,
        ==_self a.hash,
      );
  children = λ p c.
      contains-push_children p a.hash a.header.parent_hashes index.parent_to_children c
      ∙ ground (arith, indexed.children p c, named c p, unnamed p, ==_iff a.hash c);
}
  where
    tip :
        (h : BlockHash)
        → contains (update_tips_after_insert a index).tips h
          ≡ ((a.hash == h || contains index.tips h) && not (contains a.header.parent_hashes h))
    tip h =
        contains-set_remove_all a.header.parent_hashes (set_insert a.hash index.tips) h
        ∙ ap (λ (t : Bool). t && not (contains a.header.parent_hashes h))
            (contains-set_insert a.hash index.tips h)

    key :
        (h : BlockHash)
        → contains_key h (insert a.hash a store) ≡ (a.hash == h || contains_key h store)
    key h = contains_key-insert a.hash h a store

    named :
        (c p : BlockHash)
        → contains (parents_of (insert a.hash a store) c) p ≡ (
            if a.hash == c
            then contains a.header.parent_hashes p
            else contains (parents_of store c) p)
    named c p =
        ap (λ (l : List BlockHash). contains l p) (parents_of-insert store a c) ∙ ground arith

    unnamed : (p : BlockHash) → contains (parents_of store a.hash) p ≡ false
    unnamed p = ap (λ (l : List BlockHash). contains l p) (parents_of_absent store a.hash fresh)

module _ (nd : Node) where
  -- If the graph is linked, its index is in step with its store, and the hash of the annotated
  -- block is not that of a stored block, then after `insert_block`, whatever its result, the
  -- index is in step with the store: the tips are exactly the stored blocks that no stored block
  -- names as a parent, and the children of a hash are exactly the stored blocks that name it.
  pub insert_block-IsIndexed :
      (written : Bool) (b : Block) (dag : BlockDag)
      → IsLinked dag.store
      → IsIndexed dag.store dag.index
      → get (annotate nd dag.store b).hash dag.store ≡ none
      → let dag' = (insert_block nd written b dag).1 in IsIndexed dag'.store dag'.index
  insert_block-IsIndexed written b dag linked indexed fresh =
      elim (insert_block-cases nd written b dag) [
        | inl same ↦ subst (λ (d : BlockDag). IsIndexed d.store d.index) (sym same) indexed
        | inr (passed, added) ↦
            rw added
              (IsIndexed-insert (annotate nd dag.store b) dag.store dag.index fresh linked indexed)
      ]
