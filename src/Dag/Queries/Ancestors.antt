-- ===== src/Dag/Queries/Ancestors.antt =====
-- What `get_reachable_blocks` and `find_lca` answer.
use cytah_speed.Prelude.{
  ℕ, suc, ◌+◌, ◌≡◌, sym, ap, subst, ◌∙◌, Bool, true, false, ◌||◌, some, List, [], ◌∷◌, arith, ◌==◌,
  ==_iff, ==_self, contains, length, Table, Bool-cases, inl, inr, unwrap_or,
}
use cytah_speed.Core.Block.{BlockHash, Block}
use cytah_speed.Dag.Index.{all_parents, get_all_ancestors}
use cytah_speed.Dag.Index.Search.{Ancestor, get_all_ancestors_decides}
use cytah_speed.Dag.Queries.{Reached, find_lca, get_reachable_blocks}
use cytah_speed.Dag.Queries.Reach.{InPast, IsAnswer, reach_from_start}

-- For every store and list of hashes `get_reachable_blocks` returns: its fuel is enough, also on
-- a store with cycles or missing parents. The result holds exactly the hashes themselves and
-- their ancestors.
pub get_reachable_blocks_decides :
    (store : Table Block) (hashes : List BlockHash)
    → (result : List BlockHash) × (get_reachable_blocks store hashes
        ≡ some (Reached.visited_all result))
      × ((v : BlockHash)
          → (contains result v ≡ true → InPast store hashes v)
            × (InPast store hashes v → contains result v ≡ true))
unfolding get_reachable_blocks IsAnswer
get_reachable_blocks_decides store hashes =
    let (answer, e, fit) =
      reach_from_start store (λ current. false) hashes (length hashes + length (all_parents store))
        (omega arith) in
    decided answer e fit
  where
    decided :
        (answer : Reached)
        → get_reachable_blocks store hashes ≡ some answer
        → IsAnswer store (λ current. false) hashes answer
        → (result : List BlockHash) × (get_reachable_blocks store hashes
            ≡ some (Reached.visited_all result))
          × ((v : BlockHash)
              → (contains result v ≡ true → InPast store hashes v)
                × (InPast store hashes v → contains result v ≡ true))
    decided (Reached.stopped_at c) e fit = absurd (ground (arith, fit.1))
    decided (Reached.visited_all vs) e fit = (vs, e, λ v. (λ m. ((fit v).0 m).0, (fit v).1))

-- What `find_lca` answers: a hash in the past of both blocks, or, if there is none, the past of
-- the second block, which does not meet that of the first.
pub IsCommon : Table Block → BlockHash → BlockHash → Reached → Type 0
IsCommon store hash1 hash2 (Reached.stopped_at c) =
    InPast store (hash1 ∷ []) c × InPast store (hash2 ∷ []) c
IsCommon store hash1 hash2 (Reached.visited_all vs) =
    (v : BlockHash) → InPast store (hash1 ∷ []) v → InPast store (hash2 ∷ []) v → ⊥

-- For every store and two hashes `find_lca` returns. It answers a hash that is each block or one
-- of its ancestors, and it answers none only if there is no such hash.
pub find_lca-IsCommon :
    (store : Table Block) (hash1 hash2 : BlockHash)
    → (answer : Reached) × (find_lca store hash1 hash2 ≡ some answer)
      × IsCommon store hash1 hash2 answer
unfolding find_lca IsCommon IsAnswer
find_lca-IsCommon store hash1 hash2 =
    let (found, returned, decides) = get_all_ancestors_decides store hash1 in
    let ancestors1 = unwrap_or (get_all_ancestors store hash1) [] in
    let same : found ≡ ancestors1 = ap (λ o. unwrap_or o []) (sym returned) in
    let stop = λ (current : BlockHash). contains ancestors1 current || hash1 == current in
    let (answer, e, fit) =
      reach_from_start store stop (hash2 ∷ []) (suc (length (all_parents store))) (omega arith) in
    let past : (v : BlockHash) → stop v ≡ true → InPast store (hash1 ∷ []) v = λ v halt.
      elim (Bool-cases (contains ancestors1 v)) [
        | inl m ↦
            let p = (decides v).0 (ap (λ (l : List ℕ). contains l v) same ∙ m) in
            (hash1, ground (arith, ==_self hash1), inr p)
        | inr other ↦
            let here = (==_iff hash1 v).0 (ground (arith, halt, other)) in
            (hash1, ground (arith, ==_self hash1), inl here)
      ] in
    let stops : (v : BlockHash) → InPast store (hash1 ∷ []) v → stop v ≡ true = λ v p.
      let (h, m, way) = p in
      let is_first : hash1 ≡ h = (==_iff hash1 h).0 (ground (arith, m)) in
      elim way [
        | inl here ↦ ground (arith, is_first, here, ==_iff hash1 v)
        | inr q ↦
            let q' = subst (λ (x : ℕ). Ancestor store x v) (sym is_first) q in
            let m' = ap (λ (l : List ℕ). contains l v) (sym same) ∙ (decides v).1 q' in
            ground (arith, m')
      ] in
    (answer, e, common stop past stops answer fit)
  where
    common :
        (stop : BlockHash → Bool)
        → ((v : BlockHash) → stop v ≡ true → InPast store (hash1 ∷ []) v)
        → ((v : BlockHash) → InPast store (hash1 ∷ []) v → stop v ≡ true)
        → (answer : Reached) → IsAnswer store stop (hash2 ∷ []) answer
        → IsCommon store hash1 hash2 answer
    common stop past stops (Reached.stopped_at c) fit = (past c fit.1, fit.0)
    common stop past stops (Reached.visited_all vs) fit =
        λ v p q. ground (arith, ((fit v).0 ((fit v).1 q)).1, stops v p)
