-- ===== src/Ghostdag/Traversal/Anticone.antt =====
-- What the anticone and the common ancestors hold.
use cytah_speed.Prelude.{
  ◌≡◌, sym, ap, subst, ◌∙◌, inl, inr, Bool, true, not, ◌&&◌, ◌||◌, List, [], ◌∷◌, arith, ◌==◌,
  ==_iff, ==_self, contains, retain, Table, Bool-cases, unwrap_or, ℕ, nothing_in,
}
use cytah_speed.Core.Block.{BlockHash, Block}
use cytah_speed.Dag.Worklist.{edge, step}
use cytah_speed.Dag.Index.{set_insert, parents_of}
use cytah_speed.Dag.Index.Search.{Ancestor}
use cytah_speed.Dag.Order.Pigeonhole.{contains-retain}
use cytah_speed.Dag.Index.Updates.{contains-set_insert}
use cytah_speed.Ghostdag.Traversal.{ancestors_of, get_anticone, intersect_all, get_common_ancestors}
use cytah_speed.Ghostdag.Traversal.Search.{IsFound, get_ancestors-IsFound}

pub ancestors-IsFound :
    (store : Table Block) (h : BlockHash) → IsFound (parents_of store) h (ancestors_of store h)
ancestors-IsFound store h =
    let (result, returned, fit) = get_ancestors-IsFound store h in
    subst (IsFound (parents_of store) h) (ap (λ o. unwrap_or o []) (sym returned)) fit

-- A chain of references from a block that is itself reached.
pub Ancestor-trans :
    (store : Table Block) {h a b : BlockHash}
    → Ancestor store h a
    → Ancestor store a b
    → Ancestor store h b
Ancestor-trans store p (edge m) = step p m
Ancestor-trans store p (step q m) = step (Ancestor-trans store p q) m

-- A hash is in the past of a block if it is that block or one of its ancestors.
abbrev pub in_past : Table Block → BlockHash → BlockHash → Bool
in_past store h a = a == h || contains (ancestors_of store h) a

pub in_past_self : (store : Table Block) (h : BlockHash) → in_past store h h ≡ true
in_past_self store h = ground (arith, ==_self h)

-- The past is closed under references.
pub in_past_parent :
    (store : Table Block) (h a b : BlockHash)
    → in_past store h a ≡ true
    → Ancestor store a b
    → in_past store h b ≡ true
in_past_parent store h a b past p =
    let fit = ancestors-IsFound store h in
    elim (Bool-cases (a == h)) [
      | inl same ↦
          let p' : Ancestor store h b =
            subst (λ (x : ℕ). Ancestor store x b) ((==_iff a h).0 same) p in
          ground (arith, fit.complete b, p')
      | inr other ↦
          let q = Ancestor-trans store (fit.sound a (ground arith)).1 p in
          ground (arith, fit.complete b, q)
    ]

-- The anticone of a block relative to a reference holds the ancestors of the block that are not
-- in the past of the reference.
pub contains-get_anticone :
    (store : Table Block) (block_hash reference_hash v : BlockHash)
    → contains (get_anticone store block_hash reference_hash) v
      ≡ (contains (ancestors_of store block_hash) v && not (in_past store reference_hash v))
unfolding get_anticone
contains-get_anticone store block_hash reference_hash v =
    contains-retain
      (λ a. not (contains (set_insert reference_hash (ancestors_of store reference_hash)) a))
      (ancestors_of store block_hash) v
    ∙ ground (
      arith,
      contains-set_insert reference_hash (ancestors_of store reference_hash) v,
      ==_iff v reference_hash,
    )

-- For every store, also one with cycles or missing parents: the anticone of a block relative to
-- itself or to a block that has it as an ancestor is empty.
pub get_anticone_empty :
    (store : Table Block) (block_hash reference_hash : BlockHash)
    → in_past store reference_hash block_hash ≡ true
    → get_anticone store block_hash reference_hash ≡ []
get_anticone_empty store block_hash reference_hash past =
    nothing_in (get_anticone store block_hash reference_hash) λ v.
      elim (Bool-cases (contains (ancestors_of store block_hash) v)) [
        | inl m ↦
            let p = ((ancestors-IsFound store block_hash).sound v m).1 in
            ground (
              arith,
              contains-get_anticone store block_hash reference_hash v,
              in_past_parent store reference_hash block_hash v past p,
            )
        | inr m ↦ ground (arith, contains-get_anticone store block_hash reference_hash v)
      ]

-- In the past of every hash of a list.
abbrev pub in_every_past : Table Block → List BlockHash → BlockHash → Bool
in_every_past store [] v = true
in_every_past store (h ∷ hs) v = in_past store h v && in_every_past store hs v

contains-intersect_all :
    (store : Table Block) (hs common : List BlockHash) (v : BlockHash)
    → contains (intersect_all store hs common) v ≡ (contains common v && in_every_past store hs v)
unfolding intersect_all
contains-intersect_all store [] common v = ground arith
contains-intersect_all store (h ∷ hs) common v =
    contains-intersect_all store hs (retain (contains (set_insert h (ancestors_of store h))) common)
      v
    ∙ ground (
      arith,
      contains-retain (contains (set_insert h (ancestors_of store h))) common v,
      contains-set_insert h (ancestors_of store h) v,
      ==_iff v h,
    )

-- The common ancestors of a non-empty list of blocks are the hashes in the past of all of them:
-- each block counts as its own ancestor.
pub contains-get_common_ancestors :
    (store : Table Block) (h : BlockHash) (hs : List BlockHash) (v : BlockHash)
    → contains (get_common_ancestors store (h ∷ hs)) v ≡ in_every_past store (h ∷ hs) v
unfolding get_common_ancestors
contains-get_common_ancestors store h hs v =
    contains-intersect_all store hs (set_insert h (ancestors_of store h)) v
    ∙ ground (arith, contains-set_insert h (ancestors_of store h) v, ==_iff v h)
