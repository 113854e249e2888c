-- ===== src/Dag/Order/Counted.antt =====
-- Insertion keeps the table of children in step with the parents, with repetitions.
use cytah_speed.Prelude.{
  ℕ, ◌+◌, ◌≡◌, ap, sym, subst, ◌∙◌, Bool, none, List, [], ◌∷◌, ◌++◌, arith, ◌==◌, ==_iff, count,
  if◌then◌else◌, Table, get, insert, IsKeyed, insert-IsKeyed, inl, inr,
}
use cytah_speed.Core.Block.{BlockHash, Block, Node}
use cytah_speed.Dag.Index.{get_children, push_child, push_children, update_tips_after_insert}
use cytah_speed.Dag.Index.Updates.{get_children-push_child, parents_of-insert, parents_of_absent}
use cytah_speed.Dag.Engine.{BlockDag, annotate, insert_block}
use cytah_speed.Dag.Engine.Linked.{insert_block-cases}
use cytah_speed.Dag.Order.Loop.{IsCounted}

count-append : (a : ℕ) (xs ys : List ℕ) → count a (xs ++ ys) ≡ count a xs + count a ys
count-append a [] ys = omega arith
count-append a (x ∷ xs) ys = ground (arith, count-append a xs ys)

count-push_children :
    (p c child : BlockHash) (ps : List BlockHash) (m : Table (List BlockHash))
    → count c (get_children p (push_children child ps m))
      ≡ (if child == c then count c (get_children p m) + count p ps else count c (get_children p m))
unfolding push_children
count-push_children p c child [] m = ground arith
count-push_children p c child (q ∷ ps) m =
    count-push_children p c child ps (push_child child q m)
    ∙ ground (
      arith,
      ap (count c) (get_children-push_child p child q m),
      count-append c (get_children p m) (child ∷ []),
      ==_iff q p,
    )

IsCounted-insert :
    (a : Block) (store : Table Block) (children : Table (List BlockHash))
    → get a.hash store ≡ none
    → IsCounted store children
    → IsCounted (insert a.hash a store) (push_children a.hash a.header.parent_hashes children)
IsCounted-insert a store children fresh counted p c = ground (
  arith,
  count-push_children p c a.hash a.header.parent_hashes children,
  counted p c,
  ap (count p) (parents_of-insert store a c),
  ==_iff a.hash c,
  ap (count p) (parents_of_absent store a.hash fresh),
)

-- What the topological order needs of a graph, beside that it is linked.
pub record IsOrderable (dag : BlockDag) : Type 0 where
  pub keyed : IsKeyed dag.store
  pub counted : IsCounted dag.store dag.index.parent_to_children

module _ (nd : Node) where
  -- If no hash is stored twice and a block is listed among the children of a hash exactly as
  -- often as it names that hash as a parent, and the hash of the annotated block is not stored,
  -- then both hold after `insert_block`, whatever its result.
  pub insert_block-IsOrderable :
      (written : Bool) (b : Block) (dag : BlockDag)
      → IsOrderable dag
      → get (annotate nd dag.store b).hash dag.store ≡ none
      → IsOrderable (insert_block nd written b dag).1
  unfolding update_tips_after_insert
  insert_block-IsOrderable written b dag fit fresh = elim (insert_block-cases nd written b dag) [
    | inl same ↦ subst IsOrderable (sym same) fit
    | inr (passed, added) ↦
        let a = annotate nd dag.store b in
        subst IsOrderable (sym (ap (λ r. r.1) added)) (record {
          keyed = insert-IsKeyed a.hash a dag.store fit.keyed;
          counted = IsCounted-insert a dag.store dag.index.parent_to_children fresh fit.counted;
        })
  ]
