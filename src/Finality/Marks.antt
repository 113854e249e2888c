-- ===== src/Finality/Marks.antt =====
-- Which blocks the threshold marks as final.
use cytah_speed.Prelude.{
  ℕ, ◌≤◌, ◌≡◌, refl, subst, ◌∙◌, Bool, false, ◌&&◌, ◌||◌, none, some, List, [], ◌∷◌, arith, ◌==◌,
  ==_iff, leb, any, contains, values, Table, get, insert, IsKeyed, unwrap_or, Bool-cases, inl, inr,
  saturating_sub,
}
use cytah_speed.Consensus.Reward.{Floats}
use cytah_speed.Core.Block.{BlockHash}
use cytah_speed.Dag.Index.{set_insert}
use cytah_speed.Dag.Index.Updates.{contains-set_insert}
use cytah_speed.Finality.{
  FinalityEngine, head_score, calculate_finality_threshold, mark_finalized,
  calculate_score_based_finality, is_finalized,
}

-- A hash among the finalized blocks of any height.
abbrev pub is_marked : Table (List BlockHash) → BlockHash → Bool
is_marked finalized h = any (λ blocks. contains blocks h) (values finalized)

is_marked-insert :
    (height h v : ℕ) (m : Table (List BlockHash))
    → is_marked (insert height (set_insert h (unwrap_or (get height m) [])) m) v
      ≡ (is_marked m v || h == v)
unfolding insert get
is_marked-insert height h v [] = ground (arith, contains-set_insert h [] v)
is_marked-insert height h v ((k, blocks) ∷ m) = elim (Bool-cases (k == height)) [
  | inl same ↦ ground (arith, same, contains-set_insert h blocks v)
  | inr other ↦ ground (arith, other, is_marked-insert height h v m)
]

-- Whether a hash has a score up to a threshold.
abbrev pub is_scored_up_to : ℕ → Table ℕ → BlockHash → Bool
is_scored_up_to threshold [] v = false
is_scored_up_to threshold ((h, s) ∷ scores) v =
    (h == v && leb s threshold) || is_scored_up_to threshold scores v

is_marked-mark_finalized :
    (threshold : ℕ) (heights scores : Table ℕ) (finalized : Table (List BlockHash)) (v : BlockHash)
    → is_marked (mark_finalized threshold heights scores finalized) v
      ≡ (is_marked finalized v || is_scored_up_to threshold scores v)
unfolding mark_finalized
is_marked-mark_finalized threshold heights [] finalized v = ground arith
is_marked-mark_finalized threshold heights ((h, s) ∷ scores) finalized v =
    let height = unwrap_or (get h heights) 0 in
    let step = is_marked-insert height h v finalized in
    elim (Bool-cases (leb s threshold)) [
      | inl low ↦
          rw (low, mark_finalized)
            (is_marked-mark_finalized threshold heights scores
                (insert height (set_insert h (unwrap_or (get height finalized) [])) finalized) v
              ∙ ground (arith, step, low))
      | inr high ↦
          rw (high, mark_finalized)
            (is_marked-mark_finalized threshold heights scores finalized v ∙ ground (arith, high))
    ]

scored_get :
    (threshold : ℕ) (scores : Table ℕ) (v : BlockHash)
    → IsKeyed scores
    → is_scored_up_to threshold scores v
      ≡ (elim (get v scores) [ none ↦ false | some s ↦ leb s threshold ])
unfolding get
scored_get threshold [] v keyed = refl
scored_get threshold ((h, s) ∷ scores) v keyed = elim (Bool-cases (h == v)) [
  | inl same ↦
      let absent : get v scores ≡ none =
        subst (λ (x : ℕ). get x scores ≡ none) ((==_iff h v).0 same) keyed.0 in
      ground (arith, same, absent, scored_get threshold scores v keyed.1)
  | inr other ↦ ground (arith, other, scored_get threshold scores v keyed.1)
]

module _ (fl : Floats) (engine : FinalityEngine) where
  -- The threshold of an engine.
  unfoldable pub threshold_of : ℕ
  threshold_of = calculate_finality_threshold fl engine.k (head_score engine.block_scores)

  pub is_finalized-eq :
      (h : BlockHash)
      → IsKeyed engine.block_scores
      → is_finalized h (calculate_score_based_finality fl engine)
        ≡ (elim (get h engine.block_scores) [ none ↦ false | some s ↦ leb s threshold_of ])
  unfolding is_finalized calculate_score_based_finality threshold_of
  is_finalized-eq h keyed =
      is_marked-mark_finalized threshold_of engine.block_heights engine.block_scores [] h
      ∙ scored_get threshold_of engine.block_scores h keyed

-- Whatever floating-point arithmetic does, the threshold lies k below the highest score, or is 0.
pub threshold-le :
    (fl : Floats) (k head : ℕ) → calculate_finality_threshold fl k head ≤ saturating_sub head k
unfolding calculate_finality_threshold
threshold-le fl k head = omega arith
