-- ===== src/Dag/Order/Start.antt =====
-- What the loop of the topological order starts from.
use cytah_speed.Prelude.{
  ℕ, ◌≡◌, refl, sym, ap, ◌∙◌, true, ◌&&◌, some, List, [], ◌∷◌, ◌==◌, ==_iff, ==_self, arith,
  contains, length, if◌then◌else◌, Table, get, insert, get-insert, contains_key, keys, IsKeyed,
  Option-cases, inl, inr,
}
use cytah_speed.Core.Block.{BlockHash, Block}
use cytah_speed.Core.Block.Validity.{IsDistinct}
use cytah_speed.Dag.Index.{parents_of}
use cytah_speed.Dag.Index.Updates.{parents_of_stored}
use cytah_speed.Dag.Engine.Parents.{IsLinked}
use cytah_speed.Storage.BlockStore.{sort_keys}
use cytah_speed.Dag.Order.{blocks_at, sorted_blocks, in_degrees, parentless}
use cytah_speed.Dag.Order.Sorting.{
  contains-sort_keys, sort_keys-IsDistinct, contains-keys, keys-IsDistinct,
}
use cytah_speed.Dag.Order.Waiting.{missing_none}
use cytah_speed.Dag.Order.Loop.{Inv}

module _ (store : Table Block) (linked : IsLinked store) where
  get-in_degrees :
      (hs : List BlockHash) (degree : Table ℕ) (c : BlockHash)
      → ((h : BlockHash) → contains hs h ≡ true → contains_key h store ≡ true)
      → get c (in_degrees (blocks_at hs store) degree)
        ≡ (if contains hs c then some (length (parents_of store c)) else get c degree)
  unfolding in_degrees blocks_at
  get-in_degrees [] degree c known = refl
  get-in_degrees (h ∷ hs) degree c known = elim (Option-cases (get h store)) [
    | inl absent ↦ absurd (ground (arith, known h (ground (arith, ==_self h)), absent))
    | inr (b, found) ↦
        let rest =
          get-in_degrees hs (insert b.hash (length b.header.parent_hashes) degree) c
            (λ k m. known k (ground (arith, m))) in
        ground (
          arith,
          found,
          rest,
          (linked h b found).keyed,
          get-insert c b.hash (length b.header.parent_hashes) degree,
          ==_iff h c,
          ap (length {A = BlockHash}) (parents_of_stored store h b found),
        )
  ]

  contains-parentless :
      (hs : List BlockHash) (c : BlockHash)
      → ((h : BlockHash) → contains hs h ≡ true → contains_key h store ≡ true)
      → contains (parentless (blocks_at hs store)) c
        ≡ (contains hs c && length (parents_of store c) == 0)
  unfolding parentless blocks_at
  contains-parentless [] c known = refl
  contains-parentless (h ∷ hs) c known = elim (Option-cases (get h store)) [
    | inl absent ↦ absurd (ground (arith, known h (ground (arith, ==_self h)), absent))
    | inr (b, found) ↦ ground (
      arith,
      found,
      contains-parentless hs c (λ k m. known k (ground (arith, m))),
      (linked h b found).keyed,
      ==_iff h c,
      ap (length {A = BlockHash}) (parents_of_stored store h b found),
    )
  ]

  parentless-IsDistinct :
      (hs : List BlockHash)
      → ((h : BlockHash) → contains hs h ≡ true → contains_key h store ≡ true)
      → IsDistinct hs
      → IsDistinct (parentless (blocks_at hs store))
  unfolding parentless blocks_at
  parentless-IsDistinct [] known d = tt
  parentless-IsDistinct (h ∷ hs) known d = elim (Option-cases (get h store)) [
    | inl absent ↦ absurd (ground (arith, known h (ground (arith, ==_self h)), absent))
    | inr (b, found) ↦
        let rest : (k : BlockHash) → contains hs k ≡ true → contains_key k store ≡ true =
          λ k m. known k (ground (arith, m)) in
        ground (
          arith,
          found,
          d.0,
          contains-parentless hs h rest,
          parentless-IsDistinct hs rest d.1,
          (linked h b found).keyed,
        )
  ]

  -- Before the first round.
  pub Inv-start :
      IsKeyed store
      → Inv store [] (in_degrees (sorted_blocks store) []) (parentless (sorted_blocks store)) []
  unfolding sorted_blocks get
  Inv-start keyed =
      let hs = sort_keys (keys store) in
      let member : (h : BlockHash) → contains hs h ≡ contains_key h store =
        λ h. contains-sort_keys (keys store) h ∙ contains-keys store h in
      let known : (h : BlockHash) → contains hs h ≡ true → contains_key h store ≡ true =
        λ h m. sym (member h) ∙ m in
      record {
        degrees = λ c.
            ground
              (arith, get-in_degrees hs [] c known, member c, missing_none (parents_of store c));
        ready = λ c k.
            ground (
              arith,
              contains-parentless hs c known,
              member c,
              k,
              missing_none (parents_of store c),
            );
        stored = λ c m. ground (arith, contains-parentless hs c known, member c, m);
        distinct =
            parentless-IsDistinct hs known
              (sort_keys-IsDistinct (keys store) (keys-IsDistinct store keyed));
        ordered = tt;
      }
