-- ===== src/Dag/Queries/Depth.antt =====
-- The depth of a block is its stored height.
use cytah_speed.Prelude.{
  ℕ, zero, suc, ◌+◌, ◌≤◌, ◌<◌, ◌≡◌, ◌⊎◌, refl, sym, ap, subst, ◌∙◌, Bool, true, false, ◌||◌, some,
  List, [], ◌∷◌, arith, ◌==◌, ==_iff, ==_self, contains, length, Table, get, nothing_in, List-cases,
  Bool-cases, Option-cases, inl, inr,
}
use cytah_speed.Core.Block.{BlockHash, Block}
use cytah_speed.Dag.Index.{parents_of, set_insert}
use cytah_speed.Dag.Index.Updates.{contains-set_insert, parents_of_stored, parents_of_absent}
use cytah_speed.Dag.Engine.Parents.{IsLinked}
use cytah_speed.Dag.Queries.{add_parents, next_level, depth_loop, get_block_depth, get_block_height}

-- A block without height has it from no parent, and any other from a parent one below.
abbrev pub IsLevelled : Table Block → Type 0
IsLevelled store =
    (h : BlockHash) (b : Block)
    → get h store ≡ some b
    → (b.height ≡ 0)
      ⊎ ((p : BlockHash) × (q : Block) × (contains b.header.parent_hashes p ≡ true)
          × (get p store ≡ some q)
          × (b.height ≡ suc q.height))

contains-add_parents :
    (ps next_queue : List BlockHash) (v : BlockHash)
    → contains (add_parents ps next_queue) v ≡ (contains next_queue v || contains ps v)
unfolding add_parents
contains-add_parents [] next_queue v = ground arith
contains-add_parents (p ∷ ps) next_queue v =
    contains-add_parents ps (set_insert p next_queue) v
    ∙ ground (arith, contains-set_insert p next_queue v)

-- A parent of a block of a level.
abbrev is_named : Table Block → List BlockHash → BlockHash → Bool
is_named store [] v = false
is_named store (h ∷ hs) v = contains (parents_of store h) v || is_named store hs v

pub contains-next_level :
    (store : Table Block) (hs next_queue : List BlockHash) (v : BlockHash)
    → contains (next_level store hs next_queue) v ≡ (contains next_queue v || is_named store hs v)
unfolding next_level
contains-next_level store [] next_queue v = ground arith
contains-next_level store (h ∷ hs) next_queue v = elim (Option-cases (get h store)) [
  | inl absent ↦
      let e = ap (λ (l : List ℕ). contains l v) (parents_of_absent store h absent) in
      rw (absent, next_level) (contains-next_level store hs next_queue v ∙ ground (arith, e))
  | inr (b, found) ↦
      let e = ap (λ (l : List ℕ). contains l v) (parents_of_stored store h b found) in
      rw (found, next_level)
        (contains-next_level store hs (add_parents b.header.parent_hashes next_queue) v
          ∙ ground (arith, e, contains-add_parents b.header.parent_hashes next_queue v))
]

pub named_by :
    (store : Table Block) (hs : List BlockHash) (v : BlockHash)
    → is_named store hs v ≡ true
    → (h : BlockHash) × (contains hs h ≡ true) × (contains (parents_of store h) v ≡ true)
named_by store [] v e = cc
named_by store (h ∷ hs) v e = elim (Bool-cases (contains (parents_of store h) v)) [
  | inl here ↦ (h, ground (arith, ==_self h), here)
  | inr there ↦
      let (x, m, n) = named_by store hs v (ground (arith, e, there)) in (x, ground (arith, m), n)
]

naming :
    (store : Table Block) (hs : List BlockHash) (h v : BlockHash)
    → contains hs h ≡ true
    → contains (parents_of store h) v ≡ true
    → is_named store hs v ≡ true
naming store [] h v m n = cc
naming store (x ∷ hs) h v m n = elim (Bool-cases (x == h)) [
  | inl same ↦
      let n' =
        subst (λ (y : ℕ). contains (parents_of store y) v ≡ true) (sym ((==_iff x h).0 same)) n in
      ground (arith, n')
  | inr other ↦ ground (arith, naming store hs h v, m, n, other)
]

module _ (store : Table Block) (linked : IsLinked store) (levelled : IsLevelled store) where
  -- Stored blocks, of which the highest has height n.
  record IsLevel (n : ℕ) (hs : List BlockHash) : Type 0 where
    low :
        (v : BlockHash)
        → contains hs v ≡ true
        → (b : Block) × (get v store ≡ some b) × (b.height ≤ n)
    top :
        (v : BlockHash) × (contains hs v ≡ true)
        × (b : Block) × (get v store ≡ some b)
        × (b.height ≡ n)

  -- The blocks of the next level are lower.
  below :
      (n : ℕ) (hs : List BlockHash)
      → IsLevel n hs
      → (v : BlockHash) → contains (next_level store hs []) v ≡ true
      → (q : Block) × (get v store ≡ some q) × (q.height < n)
  below n hs level v m =
      let (h, listed, named) = named_by store hs v (sym (contains-next_level store hs [] v) ∙ m) in
      let (b, found, bound) = level.low h listed in
      let (q, stored, lower) =
        (linked h b found).parents v
          (ap (λ (l : List ℕ). contains l v) (sym (parents_of_stored store h b found)) ∙ named) in
      (q, stored, omega arith)

  bottom : (hs : List BlockHash) → IsLevel 0 hs → next_level store hs [] ≡ []
  bottom hs level = nothing_in (next_level store hs []) λ v.
      elim (Bool-cases (contains (next_level store hs []) v)) [
        | inl m ↦ let (q, stored, lower) = below 0 hs level v m in absurd (omega (arith, lower))
        | inr absent ↦ absent
      ]

  descend : (n : ℕ) (hs : List BlockHash) → IsLevel (suc n) hs → IsLevel n (next_level store hs [])
  descend n hs level = record {
    low = λ v m. let (q, stored, lower) = below (suc n) hs level v m in (q, stored, omega arith);
    top =
        let (h, listed, b, found, height) = level.top in
        elim (levelled h b found) [
          | inl ground_level ↦ absurd (omega (arith, ground_level, height))
          | inr (p, q, named, stored, one_below) ↦
              let named' =
                ap (λ (l : List ℕ). contains l p) (parents_of_stored store h b found) ∙ named in
              (
                p,
                contains-next_level store hs [] p ∙ naming store hs h p listed named',
                q,
                stored,
                omega (arith, one_below, height),
              )
        ];
  }

  depth_loop-eq :
      (n fuel : ℕ) (hs : List BlockHash) (depth : ℕ)
      → IsLevel n hs
      → n < fuel
      → depth_loop store fuel hs depth ≡ some (depth + n)
  unfolding depth_loop
  depth_loop-eq n zero hs depth level enough = absurd (omega arith)
  depth_loop-eq zero (suc fuel) hs depth level enough = ground (arith, bottom hs level)
  depth_loop-eq (suc n) (suc fuel) hs depth level enough =
      let lower = descend n hs level in
      elim (List-cases (next_level store hs [])) [
        | inl empty ↦
            let (v, listed, c, stored, height) = lower.top in
            absurd (ground (arith, listed, ap (λ (l : List ℕ). contains l v) empty))
        | inr (x, xs, e) ↦
            let later =
              depth_loop-eq n fuel (x ∷ xs) (depth + 1) (subst (IsLevel n) e lower)
                (omega (arith, enough)) in
            ground (arith, e, later)
      ]

  -- If the graph is linked and the height of every block is 0 or one more than that of one of
  -- its parents, then `get_block_depth` returns for every stored block: one level of fuel for
  -- each block is enough. The depth is the height that the block was stored with, and
  -- `get_block_height` gives the same.
  pub get_block_depth-eq :
      (h : BlockHash) (b : Block)
      → get h store ≡ some b
      → (get_block_depth store h ≡ some b.height)
        × (get_block_height store h ≡ some (some b.height))
  unfolding get_block_depth get_block_height
  get_block_depth-eq h b found =
      let at_h = linked h b found in
      let start : IsLevel b.height (h ∷ []) = record {
        low = λ v m.
            let same : h ≡ v = (==_iff h v).0 (ground (arith, m)) in
            (b, subst (λ (x : ℕ). get x store ≡ some b) same found, omega arith);
        top = (h, ground (arith, ==_self h), b, found, refl);
      } in
      let deep =
        depth_loop-eq b.height (suc (length store)) (h ∷ []) 0 start (omega (arith, at_h.low)) in
      let deep' : get_block_depth store h ≡ some b.height = ground (arith, deep) in
      (deep', ground (arith, found, deep', at_h.agreed))
