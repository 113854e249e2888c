-- ===== src/Dag/Queries/Levelled.antt =====
-- Insertion puts a block exactly one above the highest of its parents.
use cytah_speed.Prelude.{
  Bool, ℕ, suc, ◌<◌, ◌≡◌, ◌⊎◌, refl, sym, ap, subst, ◌∙◌, true, none, some, Option, List, [], ◌∷◌,
  arith, ==_self, contains, length, Table, get, insert, u64_max, inl, inr,
}
use cytah_speed.Core.Block.{BlockHash, Block, Node}
use cytah_speed.Dag.Engine.{
  BlockDag, check_parents, improve, best_parent, select_parent, annotate, insert_block,
}
use cytah_speed.Dag.Engine.Parents.{
  IsLinked, best_parent-ge, best_parent-lt, check_parents-none, stored_some,
}
use cytah_speed.Dag.Engine.Linked.{
  get-insert_old, get-insert_cases, insert_block-cases, check_block-none, parents-annotate,
  height-annotate,
}
use cytah_speed.Dag.Queries.Depth.{IsLevelled}

-- A parent whose height the loop ends with.
abbrev HighestOf : Table Block → List BlockHash → ℕ → Type 0
HighestOf store ps n =
    (p : BlockHash) × (q : Block) × (contains ps p ≡ true) × (get p store ≡ some q) × (n ≡ q.height)

improve-cases :
    (store : Table Block) (p : BlockHash) (best : Option BlockHash × ℕ) (q : Block)
    → get p store ≡ some q
    → ((improve store p best).1 ≡ best.1) ⊎ ((improve store p best).1 ≡ q.height)
unfolding improve
improve-cases store p best q e = ground (arith, e)

best_parent-cases :
    (store : Table Block) (ps : List BlockHash) (best : Option BlockHash × ℕ)
    → ((p : BlockHash) → contains ps p ≡ true → (q : Block) × (get p store ≡ some q))
    → ((best_parent store ps best).1 ≡ best.1) ⊎ HighestOf store ps (best_parent store ps best).1
unfolding best_parent
best_parent-cases store [] best stored = inl refl
best_parent-cases store (x ∷ ps) best stored =
    let (b, found) = stored x (ground (arith, ==_self x)) in
    elim (best_parent-cases store ps (improve store x best) (λ p m. stored p (ground (arith, m)))) [
      | inr (p, q, m, e, high) ↦ inr (p, q, ground (arith, m), e, high)
      | inl kept ↦ elim (improve-cases store x best b found) [
        | inl old ↦ inl (kept ∙ old)
        | inr new ↦ inr (x, b, ground (arith, ==_self x), found, kept ∙ new)
      ]
    ]

select_parent-level :
    (store : Table Block) (ps : List BlockHash)
    → IsLinked store
    → length store < u64_max
    → check_parents store ps ≡ none
    → ((select_parent store ps).1 ≡ 0)
      ⊎ ((p : BlockHash) × (q : Block) × (contains ps p ≡ true)
          × (get p store ≡ some q)
          × ((select_parent store ps).1 ≡ suc q.height))
unfolding select_parent
select_parent-level store [] linked small checked = inl refl
select_parent-level store (x ∷ ps) linked small checked =
    let stored = λ (p : BlockHash) (m : contains (x ∷ ps) p ≡ true).
      stored_some p store (check_parents-none store (x ∷ ps) p checked m) in
    let listed : contains (x ∷ ps) x ≡ true = ground (arith, ==_self x) in
    let (b, found) = stored x listed in
    let high = best_parent-ge store (x ∷ ps) (none, 0) x b listed found in
    let low =
      best_parent-lt store (x ∷ ps) (none, 0) linked (omega (arith, (linked x b found).low)) in
    elim (best_parent-cases store (x ∷ ps) (none, 0) stored) [
      | inl zero_height ↦ inr (x, b, listed, found, omega (arith, zero_height, high, low, small))
      | inr (p, q, m, e, top) ↦ inr (p, q, m, e, omega (arith, top, low, small))
    ]

IsLevelled-insert :
    (a : Block) (store : Table Block)
    → get a.hash store ≡ none
    → IsLevelled store
    → ((a.height ≡ 0)
        ⊎ ((p : BlockHash) × (q : Block) × (contains a.header.parent_hashes p ≡ true)
            × (get p store ≡ some q)
            × (a.height ≡ suc q.height)))
    → IsLevelled (insert a.hash a store)
IsLevelled-insert a store fresh levelled new h b e = elim (get-insert_cases a.hash h a b store e) [
  | inl (same, is_new) ↦ subst (λ (x : Block). Level x) is_new (keep a new)
  | inr old ↦ keep b (levelled h b old)
]
  where
    Level : Block → Type 0
    Level x =
        (x.height ≡ 0)
        ⊎ ((p : BlockHash) × (q : Block) × (contains x.header.parent_hashes p ≡ true)
            × (get p (insert a.hash a store) ≡ some q)
            × (x.height ≡ suc q.height))

    keep :
        (x : Block)
        → ((x.height ≡ 0)
            ⊎ ((p : BlockHash) × (q : Block) × (contains x.header.parent_hashes p ≡ true)
                × (get p store ≡ some q)
                × (x.height ≡ suc q.height)))
        → Level x
    keep x (inl low) = inl low
    keep x (inr (p, q, m, found, above)) =
        inr (p, q, m, get-insert_old a.hash p a q store fresh found, above)

-- If the graph is linked and levelled, has fewer than 2^64 - 1 blocks, and the hash of the
-- annotated block is not that of a stored block, then after `insert_block`, whatever its result,
-- the graph is levelled: the height of every block is 0 or one more than that of one of its
-- parents.
pub insert_block-IsLevelled :
    (nd : Node) (written : Bool) (b : Block) (dag : BlockDag)
    → IsLinked dag.store
    → IsLevelled dag.store
    → length dag.store < u64_max
    → get (annotate nd dag.store b).hash dag.store ≡ none
    → IsLevelled (insert_block nd written b dag).1.store
insert_block-IsLevelled nd written b dag linked levelled small fresh =
    elim (insert_block-cases nd written b dag) [
      | inl same ↦ subst (λ (d : BlockDag). IsLevelled d.store) (sym same) levelled
      | inr (passed, added) ↦
          let a = annotate nd dag.store b in
          let height = height-annotate nd dag.store b in
          let named = parents-annotate nd dag.store b in
          rw added (
            IsLevelled-insert a dag.store fresh levelled
              (elim (select_parent-level dag.store b.header.parent_hashes linked small
                (check_block-none nd dag.store b passed)) [
                  | inl bottom ↦ inl (height.0 ∙ bottom)
                  | inr (p, q, m, found, above) ↦
                      inr
                        (p, q, ap (λ (l : List ℕ). contains l p) named ∙ m, found, height.0 ∙ above)
                ]))
    ]
