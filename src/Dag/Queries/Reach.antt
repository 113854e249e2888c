-- ===== src/Dag/Queries/Reach.antt =====
-- The searches backwards end, and have visited exactly the past of where they began, unless
-- they stop at a hash of that past.
use cytah_speed.Prelude.{
  ℕ, zero, suc, ◌+◌, ◌≤◌, ◌≡◌, ◌⊎◌, refl, sym, ap, subst, ◌∙◌, Bool, true, false, not, ◌&&◌, ◌||◌,
  Option, some, List, [], ◌∷◌, ◌++◌, arith, ◌==◌, ==_iff, ==_self, contains, length, Table,
  Bool-cases, inl, inr, if◌then◌else◌,
}
use cytah_speed.Core.Block.{BlockHash, Block}
use cytah_speed.Dag.Worklist.{edge, step}
use cytah_speed.Dag.Worklist.Found.{contains-append}
use cytah_speed.Dag.Index.{parents_of, all_parents}
use cytah_speed.Dag.Index.Search.{Ancestor}
use cytah_speed.Dag.Queries.{Reached, push_unvisited, reach_loop}
use cytah_speed.Dag.Queries.Weight.{
  weight, weight_visit, weight_none, contains-push_unvisited, length-push_unvisited,
}

-- `InPast store hashes v`: v is one of the hashes or an ancestor of one.
abbrev pub InPast : Table Block → List BlockHash → BlockHash → Type 0
InPast store hashes v =
    (h : BlockHash) × (contains hashes h ≡ true) × ((h ≡ v) ⊎ Ancestor store h v)

InPast-parent :
    (store : Table Block) (hashes : List BlockHash) (u v : BlockHash)
    → InPast store hashes u
    → contains (parents_of store u) v ≡ true
    → InPast store hashes v
InPast-parent store hashes u v (h, m, inl same) e =
    (h, m, inr (edge (subst (λ (x : ℕ). contains (parents_of store x) v ≡ true) (sym same) e)))
InPast-parent store hashes u v (h, m, inr p) e = (h, m, inr (step p e))

module _ (store : Table Block) (stop : BlockHash → Bool) (hashes : List BlockHash) where
  -- From round to round.
  record Inv (queue visited : List BlockHash) : Type 0 where
    sound :
        (v : BlockHash) → (contains queue v || contains visited v) ≡ true → InPast store hashes v
    begun :
        (v : BlockHash) → contains hashes v ≡ true → (contains queue v || contains visited v) ≡ true
    closed :
        (u v : BlockHash)
        → contains visited u ≡ true
        → contains (parents_of store u) v ≡ true
        → (contains queue v || contains visited v) ≡ true
    passed : (v : BlockHash) → contains visited v ≡ true → stop v ≡ false

  -- What the search ends with.
  unfoldable pub IsAnswer : Reached → Type 0
  IsAnswer (Reached.stopped_at c) = InPast store hashes c × (stop c ≡ true)
  IsAnswer (Reached.visited_all vs) =
      (v : BlockHash)
      → (contains vs v ≡ true → InPast store hashes v × (stop v ≡ false))
        × (InPast store hashes v → contains vs v ≡ true)

  complete :
      (visited : List BlockHash)
      → Inv [] visited
      → (h : BlockHash) → contains hashes h ≡ true
      → {v : BlockHash} → Ancestor store h v
      → contains visited v ≡ true
  complete visited i h m (edge {v} e) = i.closed h v (i.begun h m) e
  complete visited i h m (step {u} {v} p e) = i.closed u v (complete visited i h m p) e

  Inv-skip :
      (u : BlockHash) (queue visited : List BlockHash)
      → contains visited u ≡ true
      → Inv (u ∷ queue) visited
      → Inv queue visited
  Inv-skip u queue visited old i = record {
    sound = λ v m. i.sound v (ground (arith, m));
    begun = λ v m. again v (i.begun v m);
    closed = λ x v m e. again v (i.closed x v m e);
    passed = i.passed;
  }
    where
      again :
          (v : BlockHash)
          → (contains (u ∷ queue) v || contains visited v) ≡ true
          → (contains queue v || contains visited v) ≡ true
      again v m = elim (Bool-cases (u == v)) [
        | inl same ↦
            let old' = subst (λ (x : ℕ). contains visited x ≡ true) ((==_iff u v).0 same) old in
            ground (arith, old')
        | inr other ↦ ground (arith, m, other)
      ]

  Inv-visit :
      (u : BlockHash) (queue visited : List BlockHash)
      → stop u ≡ false
      → Inv (u ∷ queue) visited
      → let visited' = visited ++ u ∷ [] in
        Inv (push_unvisited visited' (parents_of store u) queue) visited'
  Inv-visit u queue visited goes i = record {
    sound = λ v m. elim (Bool-cases (contains (parents_of store u) v)) [
      | inl named ↦ InPast-parent store hashes u v (i.sound u (ground (arith, ==_self u))) named
      | inr other ↦ i.sound v (ground (arith, pushed v, joined v, m, other))
    ];
    begun = λ v m. ground (arith, pushed v, joined v, i.begun v m);
    closed = λ x v m e. elim (Bool-cases (u == x)) [
      | inl same ↦
          let e' =
            subst (λ (y : ℕ). contains (parents_of store y) v ≡ true) (sym ((==_iff u x).0 same))
              e in
          ground (arith, pushed v, joined v, e')
      | inr other ↦ ground (arith, pushed v, joined v, joined x, m, other, i.closed x v, e)
    ];
    passed = λ v m. elim (Bool-cases (u == v)) [
      | inl same ↦ subst (λ (y : ℕ). stop y ≡ false) ((==_iff u v).0 same) goes
      | inr other ↦ i.passed v (ground (arith, joined v, m, other))
    ];
  }
    where
      joined : (v : BlockHash) → contains (visited ++ u ∷ []) v ≡ (contains visited v || u == v)
      joined v = contains-append visited (u ∷ []) v ∙ ground arith

      pushed :
          (v : BlockHash)
          → contains (push_unvisited (visited ++ u ∷ []) (parents_of store u) queue) v ≡ (
              contains queue v
              || (contains (parents_of store u) v && not (contains (visited ++ u ∷ []) v)))
      pushed v = contains-push_unvisited (visited ++ u ∷ []) (parents_of store u) queue v

  -- A round, by the two tests that decide it.
  abbrev round : ℕ → BlockHash → List BlockHash → List BlockHash → Bool → Bool → Option Reached
  round fuel u queue visited old halt =
      let visited' = if old then visited else visited ++ u ∷ [] in
      let queue' = if old then queue else push_unvisited visited' (parents_of store u) queue in
      elim (not old && halt) [
        | true ↦ some (Reached.stopped_at u)
        | false ↦ reach_loop store stop fuel queue' visited'
      ]

  reach_old :
      (fuel : ℕ) (u : BlockHash) (queue visited : List BlockHash)
      → contains visited u ≡ true
      → reach_loop store stop (suc fuel) (u ∷ queue) visited
        ≡ reach_loop store stop fuel queue visited
  unfolding reach_loop
  reach_old fuel u queue visited old = ap (λ (b : Bool). round fuel u queue visited b (stop u)) old

  reach_stop :
      (fuel : ℕ) (u : BlockHash) (queue visited : List BlockHash)
      → contains visited u ≡ false
      → stop u ≡ true
      → reach_loop store stop (suc fuel) (u ∷ queue) visited ≡ some (Reached.stopped_at u)
  unfolding reach_loop
  reach_stop fuel u queue visited new halt = λ i. round fuel u queue visited (new i) (halt i)

  reach_new :
      (fuel : ℕ) (u : BlockHash) (queue visited : List BlockHash)
      → contains visited u ≡ false
      → stop u ≡ false
      → let visited' = visited ++ u ∷ [] in
        reach_loop store stop (suc fuel) (u ∷ queue) visited
        ≡ reach_loop store stop fuel (push_unvisited visited' (parents_of store u) queue) visited'
  unfolding reach_loop
  reach_new fuel u queue visited new goes = λ i. round fuel u queue visited (new i) (goes i)

  reach_loop_returns :
      (fuel : ℕ) (queue visited : List BlockHash)
      → Inv queue visited
      → weight store visited + length queue ≤ fuel
      → (answer : Reached) × (reach_loop store stop fuel queue visited ≡ some answer)
        × IsAnswer answer
  unfolding reach_loop IsAnswer
  reach_loop_returns fuel [] visited i enough = (
    Reached.visited_all visited,
    refl,
    λ v. (
      λ m. (i.sound v (ground (arith, m)), i.passed v m),
      λ p.
          let (h, m, way) = p in
          elim way [
            | inl same ↦ subst (λ (x : ℕ). contains visited x ≡ true) same (i.begun h m)
            | inr q ↦ complete visited i h m q
          ],
    ),
  )
  reach_loop_returns zero (u ∷ queue) visited i enough = absurd (omega (arith, enough))
  reach_loop_returns (suc fuel) (u ∷ queue) visited i enough =
      elim (Bool-cases (contains visited u)) [
        | inl old ↦
            let (answer, e, fit) =
              reach_loop_returns fuel queue visited (Inv-skip u queue visited old i)
                (omega (arith, enough)) in
            (answer, reach_old fuel u queue visited old ∙ e, fit)
        | inr new ↦ elim (Bool-cases (stop u)) [
          | inl halt ↦ (
            Reached.stopped_at u,
            reach_stop fuel u queue visited new halt,
            (i.sound u (ground (arith, ==_self u)), halt),
          )
          | inr goes ↦
              let visited' = visited ++ u ∷ [] in
              let (answer, e, fit) =
                reach_loop_returns fuel (push_unvisited visited' (parents_of store u) queue)
                  visited' (Inv-visit u queue visited goes i)
                  (omega (
                    arith,
                    enough,
                    weight_visit store visited u new,
                    length-push_unvisited visited' (parents_of store u) queue,
                  )) in
              (answer, reach_new fuel u queue visited new goes ∙ e, fit)
        ]
      ]

  pub reach_from_start :
      (fuel : ℕ)
      → length hashes + length (all_parents store) ≤ fuel
      → (answer : Reached) × (reach_loop store stop fuel hashes [] ≡ some answer) × IsAnswer answer
  reach_from_start fuel enough =
      reach_loop_returns fuel hashes []
        (record {
          sound = λ v m. (v, ground (arith, m), inl refl);
          begun = λ v m. ground (arith, m);
          closed = λ u v m e. cc;
          passed = λ v m. cc;
        })
        (omega (arith, enough, weight_none store))
