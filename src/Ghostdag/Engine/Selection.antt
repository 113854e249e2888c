-- ===== src/Ghostdag/Engine/Selection.antt =====
-- Which parent the engine selects.
use cytah_speed.Prelude.{
  ℕ, ◌≡◌, refl, sym, ap, subst, ◌∙◌, ◌&&◌, ◌||◌, some, List, [], ◌∷◌, ◌++◌, arith, ◌==◌, ltb, map,
  Bool-cases, inl, inr, if◌then◌else◌,
}
use mathlib.Core.List.{append_assoc, append-nil}
use cytah_speed.Core.Block.{BlockHash}
use cytah_speed.Dag.Index.{parents_of}
use cytah_speed.Dag.Engine.{BlockDag}
use cytah_speed.Ghostdag.Engine.{
  GhostdagEngine, Outcome, calculate_blue_score, get_blue_score, improve_parent, score_or_zero,
  select_parent_from_parents, score_parents, select_by_score, select_parent,
}
use cytah_speed.Ghostdag.Engine.Scores.{
  score_in, IsSameScores, calculate_blue_score-eq, get_blue_score-eq,
}
use cytah_speed.Ghostdag.Engine.Best.{
  IsBest, IsBest-unique, IsBest-one, IsBest-next, sort_scored-IsBest,
}

module _ (dag : BlockDag) (start : GhostdagEngine) where
  abbrev score : BlockHash → ℕ
  score h = score_in start dag.store h

  abbrev Same : GhostdagEngine → Type 0
  Same engine = IsSameScores dag start engine

  Same-trans : (a b : GhostdagEngine) → Same a → IsSameScores dag a b → Same b
  Same-trans a b x y = record { attached = y.attached; alike = λ h. y.alike h ∙ x.alike h }

  asked :
      (h : BlockHash) (engine : GhostdagEngine)
      → Same engine
      → (score_or_zero (get_blue_score h engine).0 ≡ score h) × Same (get_blue_score h engine).1
  unfolding score_or_zero
  asked h engine same =
      let (e, after) = get_blue_score-eq h engine dag same.attached in
      (ap score_or_zero e ∙ same.alike h, Same-trans engine (get_blue_score h engine).1 same after)

  improve_parent-IsBest :
      (ps seen : List BlockHash) (best : BlockHash) (engine : GhostdagEngine)
      → Same engine
      → IsBest score seen best
      → IsBest score (seen ++ ps) (improve_parent ps (best, score best) engine).0
  unfolding improve_parent
  improve_parent-IsBest [] seen best engine same b =
      subst (λ (l : List ℕ). IsBest score l best) (sym (append-nil seen)) b
  improve_parent-IsBest (p ∷ ps) seen best engine same b =
      let (e, after) = asked p engine same in
      let engine' = (get_blue_score p engine).1 in
      let wins = ltb (score best) (score p) || (score p == score best && ltb p best) in
      let better = if wins then p else best in
      let chosen : (if wins then (p, score p) else (best, score best)) ≡ (better, score better) =
        elim (Bool-cases wins) [ inl y ↦ rw y refl | inr n ↦ rw n refl ] in
      let later =
        improve_parent-IsBest ps (seen ++ p ∷ []) better engine' after
          (IsBest-next score seen best p b) in
      let stepped =
        ap
          (λ (n : ℕ).
            (improve_parent ps
              (if ltb (score best) n || (n == score best && ltb p best)
                then (p, n)
                else (best, score best))
              engine').0)
          e
        ∙ ap (λ (w : BlockHash × ℕ). (improve_parent ps w engine').0) chosen in
      subst (IsBest score (seen ++ p ∷ ps)) (sym stepped) (
        subst (λ (l : List ℕ). IsBest score l (improve_parent ps (better, score better) engine').0)
          (append_assoc seen (p ∷ []) ps) later)

  -- The candidates with their scores.
  abbrev scored : List BlockHash → List (BlockHash × ℕ)
  scored ps = map (λ p. (p, score p)) ps

  score_parents_next :
      (p : BlockHash) (ps : List BlockHash) (scores : List (BlockHash × ℕ))
      (engine : GhostdagEngine) (n : ℕ)
      → (calculate_blue_score p engine).0 ≡ Outcome.ok n
      → score_parents (p ∷ ps) scores engine
        ≡ score_parents ps (scores ++ (p, n) ∷ []) (calculate_blue_score p engine).1
  unfolding score_parents
  score_parents_next p ps scores engine n e = rw (e, score_parents) refl

  score_parents-eq :
      (ps : List BlockHash) (scores : List (BlockHash × ℕ)) (engine : GhostdagEngine)
      → Same engine
      → (score_parents ps scores engine).0 ≡ Outcome.ok (scores ++ scored ps)
  unfolding score_parents
  score_parents-eq [] scores engine same = ap Outcome.ok (sym (append-nil scores))
  score_parents-eq (p ∷ ps) scores engine same =
      let (e, after) = calculate_blue_score-eq p engine dag same.attached in
      let engine' = (calculate_blue_score p engine).1 in
      let later =
        score_parents-eq ps (scores ++ (p, score p) ∷ []) engine'
          (Same-trans engine engine' same after) in
      ap (λ r. r.0)
        (score_parents_next p ps scores engine (score p) (e ∙ ap Outcome.ok (same.alike p)))
      ∙ (later ∙ ap Outcome.ok (append_assoc scores ((p, score p) ∷ []) (scored ps)))

module _ (dag : BlockDag) (engine : GhostdagEngine) (attached : engine.dag ≡ some dag) where
  same_engine : IsSameScores dag engine engine
  same_engine = record { attached = attached; alike = λ h. refl }

  -- If a graph is attached, then from a non-empty list of candidates the engine selects one with
  -- the highest score that it answers, and among those the one with the least hash.
  pub select_parent_from_parents-IsBest :
      (p : BlockHash) (ps : List BlockHash)
      → (best : BlockHash) × ((select_parent_from_parents (p ∷ ps) engine).0 ≡ Outcome.ok best)
        × IsBest (score_in engine dag.store) (p ∷ ps) best
  unfolding select_parent_from_parents
  select_parent_from_parents-IsBest p ps =
      let (e, after) = asked dag engine p engine same_engine in
      let engine' = (get_blue_score p engine).1 in
      (
        (improve_parent ps (p, score_in engine dag.store p) engine').0,
        ap (λ n. Outcome.ok (improve_parent ps (p, n) engine').0) e,
        improve_parent-IsBest dag engine ps (p ∷ []) p engine' after
            (IsBest-one (score_in engine dag.store) p),
      )

  select_by_score-IsBest :
      (p : BlockHash) (ps : List BlockHash)
      → (best : BlockHash) × ((select_by_score (p ∷ ps) engine).0 ≡ Outcome.ok best)
        × IsBest (score_in engine dag.store) (p ∷ ps) best
  unfolding select_by_score
  select_by_score-IsBest p [] = (p, refl, IsBest-one (score_in engine dag.store) p)
  select_by_score-IsBest p (q ∷ ps) =
      let listed = score_parents-eq dag engine (p ∷ q ∷ ps) [] engine same_engine in
      let (best, chosen, fit) = sort_scored-IsBest (score_in engine dag.store) p (q ∷ ps) in
      (best, ground (arith, listed, chosen), fit)

  -- The two ways to select a parent agree: if a graph is attached and the block has parents,
  -- `select_parent`, which sorts the scored parents, and `select_parent_from_parents`, which
  -- scans them, answer the same parent, and it is the one of highest score, the least hash
  -- among equals.
  pub select_parent-IsBest :
      (h p : BlockHash) (ps : List BlockHash)
      → parents_of dag.store h ≡ p ∷ ps
      → (best : BlockHash) × ((select_parent h engine).0 ≡ Outcome.ok best)
        × ((select_parent_from_parents (p ∷ ps) engine).0 ≡ Outcome.ok best)
        × IsBest (score_in engine dag.store) (p ∷ ps) best
  unfolding select_parent
  select_parent-IsBest h p ps named =
      let (best, chosen, fit) = select_by_score-IsBest p ps in
      let (best', chosen', fit') = select_parent_from_parents-IsBest p ps in
      let same = IsBest-unique (score_in engine dag.store) (p ∷ ps) best' best fit' fit in
      (best, ground (arith, attached, named, chosen), chosen' ∙ ap Outcome.ok same, fit)
