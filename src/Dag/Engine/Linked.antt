-- ===== src/Dag/Engine/Linked.antt =====
-- Insertion keeps the graph linked: every parent is stored, and lower than its child. So no
-- block is its own ancestor.
use cytah_speed.Prelude.{
  ℕ, suc, ◌≤◌, ◌<◌, ◌≡◌, ◌⊎◌, refl, ap, sym, subst, ◌∙◌, Bool, true, false, none, some, List, arith,
  ◌==◌, ==_iff, if◌then◌else◌, length, contains, Table, get, insert, get-insert, length-insert,
  u64_max, Option-cases, Bool-cases, inl, inr,
}
use cytah_speed.Core.Block.{BlockHash, Block, Node, set_consensus_metadata}
use cytah_speed.Dag.Worklist.{edge, step}
use cytah_speed.Dag.Index.{parents_of, get_all_ancestors, update_tips_after_insert}
use cytah_speed.Dag.Index.Search.{Ancestor, get_all_ancestors_sound}
use cytah_speed.Dag.Engine.{
  BlockDag, DagResult, check_parents, select_parent, check_block, annotate, insert_block,
}
use cytah_speed.Dag.Engine.Parents.{
  IsLinkedAt, IsLinked, select_parent-lt, select_parent-le, check_parents-none, stored_some,
}

pub get-insert_old :
    (k p : BlockHash) (v q : Block) (store : Table Block)
    → get k store ≡ none
    → get p store ≡ some q
    → get p (insert k v store) ≡ some q
get-insert_old k p v q store fresh e = ground (arith, get-insert p k v store, ==_iff k p)

-- A block that was already there, or the new one.
pub get-insert_cases :
    (k h : BlockHash) (v b : Block) (store : Table Block)
    → get h (insert k v store) ≡ some b
    → (k ≡ h) × (v ≡ b) ⊎ (get h store ≡ some b)
get-insert_cases k h v b store e = elim (Bool-cases (k == h)) [
  | inl same ↦
      let found : some v ≡ some b =
        ap (λ (t : Bool). if t then some v else get h store) (sym same)
        ∙ sym (get-insert h k v store)
        ∙ e in
      inl ((==_iff k h).0 same, cc)
  | inr other ↦ inr (ground (arith, get-insert h k v store))
]

IsLinked-insert :
    (a : Block) (store : Table Block)
    → get a.hash store ≡ none
    → IsLinked store
    → a.height ≡ a.header.chain_height
    → a.height ≤ length store
    → ((p : BlockHash)
        → contains a.header.parent_hashes p ≡ true
        → (q : Block) × (get p store ≡ some q) × (q.height < a.height))
    → IsLinked (insert a.hash a store)
IsLinked-insert a store fresh linked agreed low above h b e =
    elim (get-insert_cases a.hash h a b store e) [
      | inl (same, is_new) ↦
          subst (λ (x : Block). IsLinkedAt (insert a.hash a store) h x) is_new
            (record {
              keyed = same;
              agreed = agreed;
              low = omega (arith, grown);
              parents = λ p m. keep p (above p m);
            })
      | inr old ↦ record {
        keyed = (linked h b old).keyed;
        agreed = (linked h b old).agreed;
        low = omega (arith, grown, (linked h b old).low);
        parents = λ p m. keep p ((linked h b old).parents p m);
      }
    ]
  where
    grown : length (insert a.hash a store) ≡ suc (length store)
    grown = length-insert a.hash a store ∙ rw fresh

    keep :
        {n : ℕ} (p : BlockHash)
        → (q : Block) × (get p store ≡ some q) × (q.height < n)
        → (q : Block) × (get p (insert a.hash a store) ≡ some q) × (q.height < n)
    keep p (q, found, lower) = (q, get-insert_old a.hash p a q store fresh found, lower)

module _ (nd : Node) where
  pub check_block-none :
      (store : Table Block) (b : Block)
      → check_block nd store b ≡ none
      → check_parents store b.header.parent_hashes ≡ none
  unfolding check_block
  check_block-none store b e = ground arith

  pub parents-annotate :
      (store : Table Block) (b : Block)
      → (annotate nd store b).header.parent_hashes ≡ b.header.parent_hashes
  unfolding annotate set_consensus_metadata
  parents-annotate store b = refl

  pub height-annotate :
      (store : Table Block) (b : Block)
      → ((annotate nd store b).height ≡ (select_parent store b.header.parent_hashes).1)
        × ((annotate nd store b).header.chain_height
            ≡ (select_parent store b.header.parent_hashes).1)
  unfolding annotate set_consensus_metadata
  height-annotate store b = (refl, refl)

  -- An insertion returns an error and leaves the graph as it was, or adds the annotated block.
  pub insert_block-cases :
      (written : Bool) (b : Block) (dag : BlockDag)
      → (insert_block nd written b dag).1 ≡ dag
        ⊎ (check_block nd dag.store b ≡ none)
          × (insert_block nd written b dag ≡ (
            DagResult.ok,
            record {
              store = insert (annotate nd dag.store b).hash (annotate nd dag.store b) dag.store;
              index = update_tips_after_insert (annotate nd dag.store b) dag.index;
            },
          ))
  unfolding insert_block
  insert_block-cases written b dag = elim (Option-cases (check_block nd dag.store b)) [
    | inr (e, refused) ↦ inl (ground arith)
    | inl passed ↦ elim (Bool-cases written) [
      | inl accepted ↦ inr (passed, ground arith)
      | inr rejected ↦ inl (ground arith)
    ]
  ]

  -- If the graph is linked, has fewer than 2^64 - 1 blocks, and the hash of the annotated block
  -- is not that of a stored block, then after `insert_block`, whatever its result, the graph is
  -- linked: each block stands under its own hash, its height is its chain height and less than
  -- the number of blocks, and all its parents are stored and lower than it is.
  pub insert_block-IsLinked :
      (written : Bool) (b : Block) (dag : BlockDag)
      → IsLinked dag.store
      → length dag.store < u64_max
      → get (annotate nd dag.store b).hash dag.store ≡ none
      → IsLinked (insert_block nd written b dag).1.store
  insert_block-IsLinked written b dag linked small fresh = elim (insert_block-cases written b dag) [
    | inl same ↦ subst (λ (d : BlockDag). IsLinked d.store) (sym same) linked
    | inr (passed, added) ↦
        let checked = check_block-none dag.store b passed in
        rw added (
          IsLinked-insert a dag.store fresh linked (height.0 ∙ sym height.1)
            (omega (arith, height.0, select_parent-le dag.store ps linked checked)) (above checked))
  ]
    where
      a : Block
      a = annotate nd dag.store b

      ps : List BlockHash
      ps = b.header.parent_hashes

      height :
          (a.height ≡ (select_parent dag.store ps).1)
          × (a.header.chain_height ≡ (select_parent dag.store ps).1)
      height = height-annotate dag.store b

      above :
          check_parents dag.store ps ≡ none
          → (p : BlockHash) → contains a.header.parent_hashes p ≡ true
          → (q : Block) × (get p dag.store ≡ some q) × (q.height < a.height)
      above checked p m =
          let m' : contains ps p ≡ true =
            ap (λ (l : List BlockHash). contains l p) (sym (parents-annotate dag.store b)) ∙ m in
          let (q, found) = stored_some p dag.store (check_parents-none dag.store ps p checked m') in
          (
            q,
            found,
            omega (arith, height.0, select_parent-lt dag.store ps p q linked small m' found),
          )

-- Every ancestor is strictly lower.
Ancestor-lt :
    (store : Table Block) (h a : BlockHash) (b : Block)
    → IsLinked store
    → get h store ≡ some b
    → Ancestor store h a
    → (c : Block) × (get a store ≡ some c) × (c.height < b.height)
unfolding parents_of
Ancestor-lt store h a b linked e (edge m) = (linked h b e).parents a (rw (e, parents_of) at m)
Ancestor-lt store h a b linked e (step {u} p m) =
    let (c, found, lower) = Ancestor-lt store h u b linked e p in
    let (d, found', lower') = (linked u c found).parents a (rw (found, parents_of) at m) in
    (d, found', omega arith)

-- In a linked graph no stored block is among its own ancestors, as `get_all_ancestors` finds
-- them, and every ancestor that it finds is a stored block of lower height.
pub get_all_ancestors_acyclic :
    (store : Table Block) (h : BlockHash) (b : Block) (result : List BlockHash)
    → IsLinked store
    → get h store ≡ some b
    → get_all_ancestors store h ≡ some result
    → (contains result h ≡ false)
      × ((a : BlockHash)
          → contains result a ≡ true
          → (c : Block) × (get a store ≡ some c) × (c.height < b.height))
get_all_ancestors_acyclic store h b result linked e returned = (
  elim (Bool-cases (contains result h)) [
    | inl self ↦ absurd (impossible (lower h self))
    | inr acyclic ↦ acyclic
  ],
  lower,
)
  where
    lower :
        (a : BlockHash)
        → contains result a ≡ true
        → (c : Block) × (get a store ≡ some c) × (c.height < b.height)
    lower a m =
        Ancestor-lt store h a b linked e (get_all_ancestors_sound store h a result returned m)

    impossible : (c : Block) × (get h store ≡ some c) × (c.height < b.height) → ⊥
    impossible (c, found, less) = ground (arith, found, e)
