-- ===== src/Dag/Engine/Parents.antt =====
-- What step 5 of `insert_block` selects among the parents of a linked graph.
use cytah_speed.Prelude.{
  ℕ, ◌≤◌, ◌<◌, ◌≡◌, ap, ◌∙◌, true, Option, none, some, List, [], ◌∷◌, arith, ◌==◌, ==_iff, length,
  contains, Table, get, contains_key, u64_max, Option-cases, Bool-cases, inl, inr,
}
use cytah_speed.Core.Block.{BlockHash, Block}
use cytah_speed.Dag.Engine.{first_missing, check_parents, improve, best_parent, select_parent}

-- What holds of one stored block.
pub record IsLinkedAt (store : Table Block) (h : BlockHash) (b : Block) : Type 0 where
  pub keyed : b.hash ≡ h
  pub agreed : b.height ≡ b.header.chain_height
  pub low : b.height < length store
  pub parents :
      (p : BlockHash)
      → contains b.header.parent_hashes p ≡ true
      → (q : Block) × (get p store ≡ some q) × (q.height < b.height)

abbrev pub IsLinked : Table Block → Type 0
IsLinked store = (h : BlockHash) (b : Block) → get h store ≡ some b → IsLinkedAt store h b

pub new_IsLinked : IsLinked []
unfolding get
new_IsLinked h b e = cc

improve-le :
    (store : Table Block) (p : BlockHash) (best : Option BlockHash × ℕ)
    → best.1 ≤ (improve store p best).1
unfolding improve
improve-le store p best = ground arith

improve-ge :
    (store : Table Block) (p : BlockHash) (best : Option BlockHash × ℕ) (q : Block)
    → get p store ≡ some q
    → q.height ≤ (improve store p best).1
unfolding improve
improve-ge store p best q e = ground arith

-- The greatest height is at least what the loop began with and every parent's, and it is less
-- than the number of blocks, if all heights are.
best_parent-le :
    (store : Table Block) (ps : List BlockHash) (best : Option BlockHash × ℕ)
    → best.1 ≤ (best_parent store ps best).1
unfolding best_parent
best_parent-le store [] best = omega arith
best_parent-le store (p ∷ ps) best =
    omega (arith, improve-le store p best, best_parent-le store ps (improve store p best))

pub best_parent-ge :
    (store : Table Block) (ps : List BlockHash) (best : Option BlockHash × ℕ) (p : BlockHash)
    (q : Block)
    → contains ps p ≡ true
    → get p store ≡ some q
    → q.height ≤ (best_parent store ps best).1
unfolding best_parent
best_parent-ge store [] best p q h e = cc
best_parent-ge store (x ∷ ps) best p q h e = elim (Bool-cases (x == p)) [
  | inl same ↦
      let e' : get x store ≡ some q = ap (λ (k : ℕ). get k store) ((==_iff x p).0 same) ∙ e in
      omega (arith, improve-ge store x best q e', best_parent-le store ps (improve store x best))
  | inr other ↦ best_parent-ge store ps (improve store x best) p q (ground arith) e
]

improve-lt :
    (store : Table Block) (p : BlockHash) (best : Option BlockHash × ℕ)
    → IsLinked store
    → best.1 < length store
    → (improve store p best).1 < length store
unfolding improve
improve-lt store p best linked h = elim (Option-cases (get p store)) [
  | inl e ↦ ground arith
  | inr (b, e) ↦ ground (arith, (linked p b e).low)
]

pub best_parent-lt :
    (store : Table Block) (ps : List BlockHash) (best : Option BlockHash × ℕ)
    → IsLinked store
    → best.1 < length store
    → (best_parent store ps best).1 < length store
unfolding best_parent
best_parent-lt store [] best linked h = h
best_parent-lt store (p ∷ ps) best linked h =
    best_parent-lt store ps (improve store p best) linked (improve-lt store p best linked h)

-- A parent list that passes step 3 names stored blocks only.
first_missing-none :
    (store : Table Block) (ps : List BlockHash) (p : BlockHash)
    → first_missing store ps ≡ none
    → contains ps p ≡ true
    → contains_key p store ≡ true
unfolding first_missing
first_missing-none store [] p e h = cc
first_missing-none store (x ∷ ps) p e h = ground (arith, first_missing-none store ps p, ==_iff x p)

pub check_parents-none :
    (store : Table Block) (ps : List BlockHash) (p : BlockHash)
    → check_parents store ps ≡ none
    → contains ps p ≡ true
    → contains_key p store ≡ true
unfolding check_parents
check_parents-none store [] p e h = cc
check_parents-none store (x ∷ ps) p e h = first_missing-none store (x ∷ ps) p (ground arith) h

pub stored_some :
    (p : BlockHash) (store : Table Block)
    → contains_key p store ≡ true
    → (q : Block) × (get p store ≡ some q)
stored_some p store h = elim (Option-cases (get p store)) [
  | inl e ↦ ground arith
  | inr found ↦ found
]

-- Step 5 puts a block above all its parents.
pub select_parent-lt :
    (store : Table Block) (ps : List BlockHash) (p : BlockHash) (q : Block)
    → IsLinked store
    → length store < u64_max
    → contains ps p ≡ true
    → get p store ≡ some q
    → q.height < (select_parent store ps).1
unfolding select_parent
select_parent-lt store [] p q linked small h e = cc
select_parent-lt store (x ∷ ps) p q linked small h e = omega (
  arith,
  best_parent-ge store (x ∷ ps) (none, 0) p q h e,
  (linked p q e).low,
  best_parent-lt store (x ∷ ps) (none, 0) linked (omega (arith, (linked p q e).low)),
)

pub select_parent-le :
    (store : Table Block) (ps : List BlockHash)
    → IsLinked store
    → check_parents store ps ≡ none
    → (select_parent store ps).1 ≤ length store
unfolding select_parent
select_parent-le store [] linked e = omega arith
select_parent-le store (x ∷ ps) linked e =
    let (q, found) = stored_some x store (check_parents-none store (x ∷ ps) x e (ground arith)) in
    omega (
      arith,
      best_parent-lt store (x ∷ ps) (none, 0) linked (omega (arith, (linked x q found).low)),
    )
