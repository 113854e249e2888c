-- ===== src/Dag/Queries/Heights.antt =====
-- On a linked graph the height of a stored block is found, whatever the heights are: the loop of
-- the depth ends.
use cytah_speed.Prelude.{
  ℕ, zero, suc, ◌+◌, ◌<◌, ◌≡◌, sym, ap, subst, ◌∙◌, true, some, List, [], ◌∷◌, arith, ltb,
  if◌then◌else◌, ==_iff, ==_self, contains, length, Table, get, List-cases, Bool-cases, inl, inr,
}
use cytah_speed.Core.Block.{BlockHash, Block}
use cytah_speed.Dag.Index.Updates.{parents_of_stored}
use cytah_speed.Dag.Engine.Parents.{IsLinked}
use cytah_speed.Dag.Queries.{next_level, depth_loop, get_block_depth, get_block_height}
use cytah_speed.Dag.Queries.Depth.{contains-next_level, named_by}

module _ (store : Table Block) (linked : IsLinked store) where
  -- Stored blocks of a height below n.
  abbrev AllBelow : ℕ → List BlockHash → Type 0
  AllBelow n hs =
      (v : BlockHash) → contains hs v ≡ true → (b : Block) × (get v store ≡ some b) × (b.height < n)

  next_level-AllBelow :
      (n : ℕ) (hs : List BlockHash) → AllBelow (suc n) hs → AllBelow n (next_level store hs [])
  next_level-AllBelow n hs level v m =
      let (h, listed, named) = named_by store hs v (sym (contains-next_level store hs [] v) ∙ m) in
      let (b, found, bound) = level h listed in
      let (q, stored, lower) =
        (linked h b found).parents v
          (ap (λ (l : List ℕ). contains l v) (sym (parents_of_stored store h b found)) ∙ named) in
      (q, stored, omega arith)

  depth_loop_returns :
      (n : ℕ) (h : BlockHash) (hs : List BlockHash) (depth : ℕ)
      → AllBelow n (h ∷ hs)
      → (d : ℕ) × (depth_loop store n (h ∷ hs) depth ≡ some d)
  unfolding depth_loop
  depth_loop_returns zero h hs depth level =
      let (b, found, low) = level h (ground (arith, ==_self h)) in absurd (omega (arith, low))
  depth_loop_returns (suc n) h hs depth level =
      let lower = next_level-AllBelow n (h ∷ hs) level in
      elim (List-cases (next_level store (h ∷ hs) [])) [
        | inl empty ↦ (depth, ground (arith, empty))
        | inr (x, xs, e) ↦
            let (d, later) = depth_loop_returns n x xs (depth + 1) (subst (AllBelow n) e lower) in
            (d, ground (arith, e, later))
      ]

  pub get_block_height_returns :
      (h : BlockHash) (b : Block)
      → get h store ≡ some b
      → (height : ℕ) × (get_block_height store h ≡ some (some height))
  unfolding get_block_height get_block_depth
  get_block_height_returns h b found =
      let start : AllBelow (suc (length store)) (h ∷ []) = λ v m.
        let same : h ≡ v = (==_iff h v).0 (ground (arith, m)) in
        (
          b,
          subst (λ (x : ℕ). get x store ≡ some b) same found,
          omega (arith, (linked h b found).low),
        ) in
      let (d, deep) = depth_loop_returns (suc (length store)) h [] 0 start in
      let stored =
        if ltb 0 b.header.chain_height
        then b.header.chain_height
        else if ltb 0 b.height
        then b.height
        else 0 in
      elim (Bool-cases (ltb 0 stored)) [
        | inl high ↦ (stored, ground (arith, found, high))
        | inr low ↦ (d, ground (arith, found, low, deep))
      ]
