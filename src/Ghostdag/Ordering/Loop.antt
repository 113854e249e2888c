-- ===== src/Ghostdag/Ordering/Loop.antt =====
-- The loop over the rounds ends, with every block listed.
use cytah_speed.Prelude.{
  ℕ, zero, suc, ◌+◌, ◌<◌, ◌≤◌, ◌≡◌, ap, subst, ◌∙◌, true, false, not, ◌&&◌, some, List, [], ◌∷◌,
  ◌++◌, arith, ==_self, ltb, contains, length, length-append, all, retain, Table, Bool-cases,
  List-cases, inl, inr,
}
use cytah_speed.Core.Block.{BlockHash, Block, is_genesis}
use cytah_speed.Core.Block.Validity.{IsDistinct}
use cytah_speed.Storage.BlockStore.{sort_keys}
use cytah_speed.Dag.Index.{parents_of}
use cytah_speed.Dag.Worklist.Found.{missing, contains-append, Within}
use cytah_speed.Dag.Order.Waiting.{
  missing_zero, missing_zero_all, IsOrderedAfter, IsOrdered, IsOrderedAfter-append,
}
use cytah_speed.Dag.Order.Sorting.{contains-sort_keys, sort_keys-IsDistinct}
use cytah_speed.Dag.Order.Pigeonhole.{
  missing-IsDistinct, contains-retain, retain-IsDistinct, append-IsDistinct,
}
use cytah_speed.Dag.Order.Complete.{IsTopological}
use cytah_speed.Ghostdag.Ordering.{
  without_parents, next_blocks, ordered_by_score, insert_all, ordering_loop,
}
use cytah_speed.Ghostdag.Ordering.Rounds.{
  contains-ordered_by_score, ordered_by_score-IsDistinct, insert_all_new, all_found,
  contains-next_blocks, next_exists,
}

module _ (store : Table Block) (scores : Table ℕ) (all_blocks : List BlockHash)
    (sorted : IsTopological store all_blocks) where
  -- From round to round.
  pub record Inv (ordering : List BlockHash) : Type 0 where
    pub distinct : IsDistinct ordering
    pub inside : Within ordering all_blocks
    pub ordered : IsOrdered store ordering

  round_of : List BlockHash → List BlockHash
  round_of ordering = ordered_by_score scores (next_blocks store ordering all_blocks)

  contains-round_of :
      (ordering : List BlockHash) (v : BlockHash)
      → contains (round_of ordering) v ≡ (
          contains all_blocks v
          && (not (contains ordering v) && all (contains ordering) (parents_of store v)))
  unfolding round_of
  contains-round_of ordering v =
      contains-ordered_by_score scores (next_blocks store ordering all_blocks) v
      ∙ contains-next_blocks store ordering all_blocks v

  -- Blocks whose parents were all seen may come in any order.
  ready-IsOrderedAfter :
      (seen later hs : List BlockHash)
      → Within seen later
      → ((v : BlockHash) → contains hs v ≡ true → all (contains seen) (parents_of store v) ≡ true)
      → IsOrderedAfter store later hs
  ready-IsOrderedAfter seen later [] within ready = tt
  ready-IsOrderedAfter seen later (h ∷ hs) within ready = (
    missing_zero (parents_of store h) later λ p m. within p (
        missing_zero_all (parents_of store h) seen p
          ((all_found (parents_of store h) seen).0 (ready h (ground (arith, ==_self h)))) m),
    ready-IsOrderedAfter seen (later ++ h ∷ []) hs
        (λ v m. ground (arith, within v m, contains-append later (h ∷ []) v))
        (λ v m. ready v (ground (arith, m))),
  )

  round-IsDistinct :
      (ordering : List BlockHash) → Inv ordering → IsDistinct (ordering ++ round_of ordering)
  unfolding round_of next_blocks
  round-IsDistinct ordering i =
      append-IsDistinct ordering (round_of ordering) i.distinct
        (ordered_by_score-IsDistinct scores (next_blocks store ordering all_blocks) (
          retain-IsDistinct
            (λ h. not (contains ordering h) && all (contains ordering) (parents_of store h))
            all_blocks sorted.distinct))
        (λ v m. ground (arith, contains-round_of ordering v, m))

  Inv-round : (ordering : List BlockHash) → Inv ordering → Inv (ordering ++ round_of ordering)
  Inv-round ordering i = record {
    distinct = round-IsDistinct ordering i;
    inside = λ v m. ground (
      arith,
      i.inside v,
      contains-round_of ordering v,
      m,
      contains-append ordering (round_of ordering) v,
    );
    ordered = IsOrderedAfter-append store [] ordering (round_of ordering) i.ordered (
        ready-IsOrderedAfter ordering ordering (round_of ordering) (λ v m. m)
          (λ v m. ground (arith, contains-round_of ordering v, m)));
  }

  left :
      (ordering : List BlockHash)
      → Inv ordering
      → missing all_blocks ordering + length ordering ≡ length all_blocks
  left ordering i = missing-IsDistinct all_blocks ordering sorted.distinct i.distinct i.inside

  finished :
      (ordering : List BlockHash)
      → Inv ordering
      → length all_blocks ≤ length ordering
      → IsTopological store ordering
  finished ordering i full =
      let none_left : missing all_blocks ordering ≡ 0 = omega (arith, left ordering i) in
      record {
        distinct = i.distinct;
        complete = λ h. ground (
          arith,
          i.inside h,
          missing_zero_all all_blocks ordering h none_left,
          sorted.complete h,
        );
        ordered = i.ordered;
      }

  -- While blocks are left, the next round is not empty.
  round_exists :
      (ordering : List BlockHash)
      → Inv ordering
      → length ordering < length all_blocks
      → round_of ordering ≡ []
      → ⊥
  round_exists ordering i unfinished none_ready =
      elim (next_exists store ordering [] all_blocks sorted.ordered (λ v m. cc)) [
        | inl done ↦
            omega (arith, unfinished, left ordering i, missing_zero all_blocks ordering done)
        | inr (h, m, new, ready) ↦ ground (
          arith,
          contains-round_of ordering h,
          m,
          new,
          ready,
          ap (λ (l : List ℕ). contains l h) none_ready,
        )
      ]

  next_round :
      (fuel : ℕ) (ordering : List BlockHash) (h : BlockHash) (hs : List BlockHash)
      → ltb (length ordering) (length all_blocks) ≡ true
      → round_of ordering ≡ h ∷ hs
      → ordering_loop store scores all_blocks (suc fuel) ordering ordering
        ≡ ordering_loop store scores all_blocks fuel
            (ordering ++ h ∷ hs)
            (insert_all (h ∷ hs) ordering)
  unfolding ordering_loop round_of
  next_round fuel ordering h hs unfinished found = ground (arith, unfinished, found)

  last_round :
      (fuel : ℕ) (ordering : List BlockHash)
      → ltb (length ordering) (length all_blocks) ≡ false
      → ordering_loop store scores all_blocks fuel ordering ordering ≡ some ordering
  unfolding ordering_loop
  last_round zero ordering full = ground (arith, full)
  last_round (suc fuel) ordering full = ground (arith, full)

  -- With a round of fuel for each block that is left, the loop returns.
  pub ordering_loop_returns :
      (fuel : ℕ) (ordering : List BlockHash)
      → Inv ordering
      → length all_blocks ≤ fuel + length ordering
      → (result : List BlockHash) × (ordering_loop store scores all_blocks fuel ordering ordering
          ≡ some result)
        × IsTopological store result
  ordering_loop_returns zero ordering i enough =
      let full : ltb (length ordering) (length all_blocks) ≡ false = ground (arith, enough) in
      (ordering, last_round zero ordering full, finished ordering i (omega (arith, enough)))
  ordering_loop_returns (suc fuel) ordering i enough =
      elim (Bool-cases (ltb (length ordering) (length all_blocks))) [
        | inr full ↦ (
          ordering,
          last_round (suc fuel) ordering full,
          finished ordering i (ground (arith, full)),
        )
        | inl unfinished ↦ elim (List-cases (round_of ordering)) [
          | inl none_ready ↦
              absurd (round_exists ordering i (ground (arith, unfinished)) none_ready)
          | inr (h, hs, found) ↦
              let i' : Inv (ordering ++ h ∷ hs) =
                subst (λ (l : List ℕ). Inv (ordering ++ l)) found (Inv-round ordering i) in
              let (result, e, t) =
                ordering_loop_returns fuel (ordering ++ h ∷ hs) i'
                  (omega (arith, length-append ordering (h ∷ hs), enough)) in
              (
                result,
                next_round fuel ordering h hs unfinished found
                    ∙ ap (ordering_loop store scores all_blocks fuel (ordering ++ h ∷ hs))
                        (insert_all_new (h ∷ hs) ordering i'.distinct)
                    ∙ e,
                t,
              )
        ]
      ]

  -- The first round: the blocks without parents.
  pub Inv-genesis : Inv (sort_keys (retain (without_parents store) all_blocks))
  unfolding without_parents is_genesis parents_of
  Inv-genesis =
      let first = retain (without_parents store) all_blocks in
      let listed : (v : BlockHash)
          → contains (sort_keys first) v ≡ (contains all_blocks v && without_parents store v) =
        λ v. contains-sort_keys first v ∙ contains-retain (without_parents store) all_blocks v in
      record {
        distinct =
            sort_keys-IsDistinct first
              (retain-IsDistinct (without_parents store) all_blocks sorted.distinct);
        inside = λ v m. ground (arith, listed v, m);
        ordered =
            ready-IsOrderedAfter [] [] (sort_keys first) (λ v m. m)
              (λ v m. ground (arith, listed v, m));
      }
