-- ===== src/Ghostdag/BlueSet/Blue.antt =====
-- Which blocks are blue.
use cytah_speed.Prelude.{
  ℕ, ◌+◌, ◌≡◌, refl, ap, sym, ◌∙◌, true, false, not, ◌&&◌, ◌||◌, List, [], ◌∷◌, arith, ◌==◌, ==_iff,
  ==_self, leb, contains, contains_key, length, retain, Table, if◌then◌else◌, if_ind, Bool-cases,
  inl, inr,
}
use cytah_speed.Core.Block.{BlockHash, Block}
use cytah_speed.Core.Block.Validity.{IsDistinct}
use cytah_speed.Dag.Index.{is_ancestor, set_insert}
use cytah_speed.Dag.Index.Search.{is_ancestor_decides}
use cytah_speed.Dag.Index.Updates.{contains-set_insert}
use cytah_speed.Dag.Engine.{BlockDag}
use cytah_speed.Dag.Engine.Parents.{IsLinked}
use cytah_speed.Dag.Order.Counted.{IsOrderable}
use cytah_speed.Dag.Order.Waiting.{IsDistinct-snoc}
use cytah_speed.Dag.Order.Pigeonhole.{missing-IsDistinct}
use cytah_speed.Dag.Worklist.Found.{missing, Within}
use cytah_speed.Ghostdag.Traversal.{ancestors_of}
use cytah_speed.Ghostdag.Traversal.Anticone.{in_past, get_anticone_empty, ancestors-IsFound}
use cytah_speed.Ghostdag.BlueSet.{
  BlueSet, get_all_blocks, get_anticone_size, colour_blue, build_blue_set, build_red_set, is_blue,
  count_blue_blocks, count_red_blocks,
}
use cytah_speed.Ghostdag.Ordering.Validation.{length-IsTopological}
use cytah_speed.Ghostdag.Ordering.Generated.{all_blocks-IsTopological}

-- The index and the traversal agree on which other blocks are ancestors.
is_ancestor-ancestors_of :
    (store : Table Block) (a h : BlockHash)
    → (a == h) ≡ false
    → is_ancestor store a h ≡ contains (ancestors_of store h) a
is_ancestor-ancestors_of store a h other =
    let (to, from) = is_ancestor_decides store a h in
    let fit = ancestors-IsFound store h in
    elim (Bool-cases (contains (ancestors_of store h) a)) [
      | inl m ↦ from (fit.sound a m).1 ∙ sym m
      | inr absent ↦ elim (Bool-cases (is_ancestor store a h)) [
        | inl reached ↦ let m = fit.complete a other (to reached) in ground (arith, m, absent)
        | inr apart ↦ apart ∙ sym absent
      ]
    ]

module _ (s : BlueSet) where
  size_past :
      (store : Table Block) (block_hash reference_hash : BlockHash)
      → in_past store reference_hash block_hash ≡ true
      → get_anticone_size s store block_hash reference_hash ≡ 0
  unfolding get_anticone_size
  size_past store block_hash reference_hash past =
      ap length (get_anticone_empty store block_hash reference_hash past)

  -- For every limit k, `is_blue` answers true exactly for the reference itself and its
  -- ancestors: the limit on the anticone has no effect.
  pub is_blue-eq :
      (store : Table Block) (block_hash reference_hash : BlockHash)
      → is_blue s store block_hash reference_hash ≡ in_past store reference_hash block_hash
  unfolding is_blue
  is_blue-eq store block_hash reference_hash = ground (
    arith,
    is_ancestor-ancestors_of store block_hash reference_hash,
    size_past store block_hash reference_hash,
  )

  -- One block of the loop.
  abbrev coloured : Table Block → BlockHash → BlockHash → List BlockHash → List BlockHash
  coloured store reference_hash h blue =
      if h == reference_hash
      then blue
      else if leb (get_anticone_size s store h reference_hash) s.k
      then set_insert h blue
      else blue

  contains-coloured :
      (store : Table Block) (reference_hash h : BlockHash) (blue : List BlockHash) (v : BlockHash)
      → contains blue reference_hash ≡ true
      → contains (coloured store reference_hash h blue) v
        ≡ (contains blue v || (h == v && leb (get_anticone_size s store v reference_hash) s.k))
  contains-coloured store reference_hash h blue v self = elim (Bool-cases (h == v)) [
    | inl same ↦
        let size =
          ap (λ (x : ℕ). get_anticone_size s store x reference_hash) ((==_iff h v).0 same) in
        ground (
          arith,
          size,
          contains-set_insert h blue v,
          self,
          ap (contains blue) ((==_iff h v).0 same),
          ==_iff h reference_hash,
          λ (e : h ≡ reference_hash). ap (contains blue) e,
        )
    | inr other ↦ ground (arith, contains-set_insert h blue v, other)
  ]

  contains-colour_blue :
      (store : Table Block) (reference_hash : BlockHash) (hs blue : List BlockHash) (v : BlockHash)
      → contains blue reference_hash ≡ true
      → contains (colour_blue s store reference_hash hs blue) v ≡ (
          contains blue v
          || (contains hs v && leb (get_anticone_size s store v reference_hash) s.k))
  unfolding colour_blue
  contains-colour_blue store reference_hash [] blue v self = ground arith
  contains-colour_blue store reference_hash (h ∷ hs) blue v self =
      let step = contains-coloured store reference_hash h blue v self in
      let self' = contains-coloured store reference_hash h blue reference_hash self in
      contains-colour_blue store reference_hash hs (coloured store reference_hash h blue) v
        (ground (arith, self', self))
      ∙ ground (arith, step)

  colour_blue-IsDistinct :
      (store : Table Block) (reference_hash : BlockHash) (hs blue : List BlockHash)
      → IsDistinct blue
      → IsDistinct (colour_blue s store reference_hash hs blue)
  unfolding colour_blue set_insert
  colour_blue-IsDistinct store reference_hash [] blue d = d
  colour_blue-IsDistinct store reference_hash (h ∷ hs) blue d =
      let added : IsDistinct (coloured store reference_hash h blue) =
        if_ind IsDistinct (h == reference_hash) (λ _. d)
          (λ _.
            if_ind IsDistinct (leb (get_anticone_size s store h reference_hash) s.k)
              (λ _. if_ind IsDistinct (contains blue h) (λ _. d) (IsDistinct-snoc blue h d))
              (λ _. d)) in
      colour_blue-IsDistinct store reference_hash hs (coloured store reference_hash h blue) added

  -- A block is in the blue set if it is the reference, or it is stored and its anticone
  -- relative to the reference has at most k elements.
  pub contains-build_blue_set :
      (dag : BlockDag) (reference_hash v : BlockHash)
      → contains (build_blue_set s dag reference_hash) v ≡ (
          v == reference_hash
          || (contains (get_all_blocks dag) v
              && leb (get_anticone_size s dag.store v reference_hash) s.k))
  unfolding build_blue_set
  contains-build_blue_set dag reference_hash v =
      contains-colour_blue dag.store reference_hash (get_all_blocks dag) (reference_hash ∷ []) v
        (ground (arith, ==_self reference_hash))
      ∙ ground (arith, ==_iff reference_hash v, ==_iff v reference_hash)

  length-retain-missing :
      (us found : List ℕ) → length (retain (λ h. not (contains found h)) us) ≡ missing us found
  unfolding missing
  length-retain-missing [] found = refl
  length-retain-missing (u ∷ us) found = ground (arith, length-retain-missing us found)

  -- If the graph is linked, no hash is stored twice and the table of children agrees with the
  -- parents, then relative to a stored block the blue and the red blocks together are as many
  -- as the stored blocks.
  pub blue_and_red :
      (dag : BlockDag) (reference_hash : BlockHash)
      → IsLinked dag.store
      → IsOrderable dag
      → contains_key reference_hash dag.store ≡ true
      → count_blue_blocks s dag reference_hash + count_red_blocks s dag reference_hash
        ≡ length dag.store
  unfolding count_blue_blocks count_red_blocks build_red_set build_blue_set
  blue_and_red dag reference_hash linked fit known =
      let all_blocks = get_all_blocks dag in
      let blue = build_blue_set s dag reference_hash in
      let sorted = all_blocks-IsTopological dag linked fit in
      let inside : Within blue all_blocks = λ v m. ground (
        arith,
        contains-build_blue_set dag reference_hash v,
        m,
        sorted.complete v,
        known,
        ==_iff v reference_hash,
        λ (e : v ≡ reference_hash). ap (λ (x : ℕ). contains_key x dag.store) e,
      ) in
      let distinct : IsDistinct blue =
        colour_blue-IsDistinct dag.store reference_hash all_blocks (reference_hash ∷ [])
          (refl, tt) in
      omega (
        arith,
        length-retain-missing all_blocks blue,
        missing-IsDistinct all_blocks blue sorted.distinct distinct inside,
        length-IsTopological dag.store all_blocks fit.keyed sorted,
      )
