-- ===== src/Ghostdag/Engine/Scores.antt =====
-- The blue score, and its cache.
use cytah_speed.Prelude.{
  ℕ, suc, ◌+◌, ◌%◌, ◌^◌, ◌<◌, ◌≡◌, refl, sym, ap, ◌∙◌, true, some, none, List, [], ◌∷◌, arith,
  ==_iff, ==_self, leb, contains, length, Table, get, insert, get-insert, Option-cases, inl, inr,
  if◌then◌else◌,
}
use cytah_speed.Core.Block.{BlockHash, Block}
use cytah_speed.Dag.Engine.{BlockDag}
use cytah_speed.Ghostdag.Traversal.{ancestors_of, get_anticone, count_ancestors}
use cytah_speed.Ghostdag.Traversal.Anticone.{in_past, in_past_self, get_anticone_empty}
use cytah_speed.Ghostdag.Engine.{
  GhostdagEngine, Outcome, count_blue, blue_score_of, calculate_blue_score, get_blue_score,
}

-- Every block of the past of the reference counts, whatever the limit.
count_blue_past :
    (k : ℕ) (store : Table Block) (reference : BlockHash) (hs : List BlockHash) (n : ℕ)
    → ((h : BlockHash) → contains hs h ≡ true → in_past store reference h ≡ true)
    → n < 2 ^ 64
    → count_blue k store reference hs n ≡ (n + length hs) % 2 ^ 64
unfolding count_blue
count_blue_past k store reference [] n past small = omega arith
count_blue_past k store reference (h ∷ hs) n past small =
    let here : length (get_anticone store h reference) ≡ 0 =
      ap length (get_anticone_empty store h reference (past h (ground (arith, ==_self h)))) in
    let counted : (if leb (length (get_anticone store h reference)) k then (n + 1) % 2 ^ 64 else n)
        ≡ (n + 1) % 2 ^ 64 =
      ground (arith, here) in
    rw counted (
      count_blue_past k store reference hs ((n + 1) % 2 ^ 64) (λ x m. past x (ground arith))
        (omega arith)
      ∙ omega arith)

blue_score_of-eq :
    (k : ℕ) (store : Table Block) (h : BlockHash)
    → blue_score_of k store h ≡ suc (count_ancestors store h) % 2 ^ 64
unfolding blue_score_of count_ancestors
blue_score_of-eq k store h =
    let self : count_blue k store h (h ∷ []) 0 ≡ 1 =
      count_blue_past k store h (h ∷ []) 0 (λ x m. ground (arith, ==_iff h x, in_past_self store h))
        (omega arith) in
    rw self (
      count_blue_past k store h (ancestors_of store h) 1 (λ x m. ground arith) (omega arith)
      ∙ omega arith)

-- The score that an engine answers for a hash in a store: the cached one, or else a new one.
unfoldable pub score_in : GhostdagEngine → Table Block → BlockHash → ℕ
score_in engine store h = elim (get h engine.blue_score_cache) [
  | some cached ↦ cached
  | none ↦ blue_score_of engine.k store h
]

-- Two engines that answer alike.
pub record IsSameScores (dag : BlockDag) (engine engine' : GhostdagEngine) : Type 0 where
  pub attached : engine'.dag ≡ some dag
  pub alike : (x : BlockHash) → score_in engine' dag.store x ≡ score_in engine dag.store x

module _ (h : BlockHash) (engine : GhostdagEngine) (dag : BlockDag)
    (attached : engine.dag ≡ some dag) where
  cached_score :
      (cached : ℕ)
      → get h engine.blue_score_cache ≡ some cached
      → calculate_blue_score h engine ≡ (Outcome.ok cached, engine)
  unfolding calculate_blue_score
  cached_score cached e = ground (arith, attached, e)

  new_score :
      get h engine.blue_score_cache ≡ none
      → let score = blue_score_of engine.k dag.store h in
        calculate_blue_score h engine ≡ (
          Outcome.ok score,
          record engine { blue_score_cache = insert h score engine.blue_score_cache },
        )
  unfolding calculate_blue_score
  new_score e = ground (arith, attached, e)

  -- For every limit k, if a graph is attached and the block has no cached score, the blue score
  -- of a block is the number of its ancestors and itself, modulo 2^64: k has no effect.
  pub calculate_blue_score_counts_past :
      get h engine.blue_score_cache ≡ none
      → (calculate_blue_score h engine).0 ≡ Outcome.ok (suc (count_ancestors dag.store h) % 2 ^ 64)
  calculate_blue_score_counts_past fresh =
      ap (λ r. r.0) (new_score fresh) ∙ ap Outcome.ok (blue_score_of-eq engine.k dag.store h)

  pub calculate_blue_score-eq :
      ((calculate_blue_score h engine).0 ≡ Outcome.ok (score_in engine dag.store h))
      × IsSameScores dag engine (calculate_blue_score h engine).1
  unfolding score_in
  calculate_blue_score-eq = elim (Option-cases (get h engine.blue_score_cache)) [
    | inr (cached, e) ↦
        let found : score_in engine dag.store h ≡ cached = ground (arith, e) in
        rw (cached_score cached e)
          (ap Outcome.ok (sym found), record { attached = attached; alike = λ x. refl })
    | inl e ↦
        let score = blue_score_of engine.k dag.store h in
        let found : score_in engine dag.store h ≡ score = ground (arith, e) in
        rw (new_score e) (
          ap Outcome.ok (sym found),
          record {
            attached = attached;
            alike =
                λ x. ground (arith, ==_iff h x, e, get-insert x h score engine.blue_score_cache);
          },
        )
  ]

  known_score :
      (cached : ℕ)
      → get h engine.blue_score_cache ≡ some cached
      → get_blue_score h engine ≡ (Outcome.ok cached, engine)
  unfolding get_blue_score
  known_score cached e = ground (arith, e)

  unknown_score :
      get h engine.blue_score_cache ≡ none → get_blue_score h engine ≡ calculate_blue_score h engine
  unfolding get_blue_score
  unknown_score e = ground (arith, e)

  -- If a graph is attached, `get_blue_score` answers the cached score of a block or calculates
  -- it, and afterwards the engine answers the same scores as before, for this block and every
  -- other.
  pub get_blue_score-eq :
      ((get_blue_score h engine).0 ≡ Outcome.ok (score_in engine dag.store h))
      × IsSameScores dag engine (get_blue_score h engine).1
  unfolding score_in
  get_blue_score-eq = elim (Option-cases (get h engine.blue_score_cache)) [
    | inr (cached, e) ↦
        let found : score_in engine dag.store h ≡ cached = ground (arith, e) in
        rw (known_score cached e)
          (ap Outcome.ok (sym found), record { attached = attached; alike = λ x. refl })
    | inl e ↦ rw (unknown_score e) calculate_blue_score-eq
  ]
