-- ===== src/Ghostdag/Traversal/Search.antt =====
-- The loop of `get_ancestors` and `get_descendants` ends, and has found exactly what a walk of
-- one or more steps reaches, without the start.
use cytah_speed.Prelude.{
  ℕ, zero, suc, ◌+◌, ◌≤◌, ◌≡◌, refl, sym, subst, inl, inr, true, false, ◌||◌, some, List, [], ◌∷◌,
  ◌++◌, arith, ◌==◌, ==_iff, ==_self, contains, length, Bool-cases, Table,
}
use cytah_speed.Core.Block.{BlockHash, Block}
use cytah_speed.Core.Block.Validity.{IsDistinct}
use cytah_speed.Dag.Worklist.{Reaches, edge, step}
use cytah_speed.Dag.Worklist.Found.{contains-append, missing, missing-le, Within}
use cytah_speed.Dag.Index.{get_children, parents_of, all_parents, all_children}
use cytah_speed.Dag.Index.Search.{parents_of-Within, children-Within}
use cytah_speed.Ghostdag.Traversal.{
  enqueue_other, SearchState, visit, search_loop, get_ancestors, get_descendants,
}
use cytah_speed.Ghostdag.Traversal.Enqueue.{enqueue_other-Enqueued}

module _ (next : BlockHash → List BlockHash) (start : BlockHash) where
  -- From round to round.
  record Inv (found queue visited : List ℕ) : Type 0 where
    sound : (v : ℕ) → contains found v ≡ true → ((v == start) ≡ false) × Reaches next start v
    queued : (v : ℕ) → contains queue v ≡ true → (v == start || contains found v) ≡ true
    pending :
        (v : ℕ)
        → (v == start || contains found v) ≡ true
        → (contains queue v || contains visited v) ≡ true
    closed :
        (u v : ℕ)
        → contains visited u ≡ true
        → contains (next u) v ≡ true
        → (v == start || contains found v) ≡ true
    once : IsDistinct found

  visit_again : (u : ℕ) (s : SearchState) → contains s.visited u ≡ true → visit next start u s ≡ s
  unfolding visit
  visit_again u s e = rw (e, visit) refl

  visit_first :
      (u : ℕ) (found queue visited : List ℕ)
      → contains visited u ≡ false
      → let (found', queue') = enqueue_other start (next u) (found, queue) in
        visit next start u (record { found = found; queue = queue; visited = visited })
        ≡ record { found = found'; queue = queue'; visited = visited ++ u ∷ [] }
  unfolding visit
  visit_first u found queue visited e = rw (e, visit) refl

  -- What a round leaves, and that it needs less fuel.
  record Visited (us : List ℕ) (limit : ℕ) (s : SearchState) : Type 0 where
    inv : Inv s.found s.queue s.visited
    work : missing us s.found + length s.queue ≤ limit

  visit-Visited :
      (us : List ℕ)
      → ((u : ℕ) → Within (next u) us)
      → (u : ℕ) (found queue visited : List ℕ) → Inv found (u ∷ queue) visited
      → Visited us
          (missing us found + length queue)
          (visit next start u (record { found = found; queue = queue; visited = visited }))
  visit-Visited us within u found queue visited i = elim (Bool-cases (contains visited u)) [
    | inl seen ↦
        rw (visit_again u (record { found = found; queue = queue; visited = visited }) seen)
          (record {
            inv = record {
              sound = i.sound;
              queued = λ v q. i.queued v (ground arith);
              pending = λ v m. ground (arith, i.pending v m, ==_iff u v, seen);
              closed = i.closed;
              once = i.once;
            };
            work = omega arith;
          })
    | inr fresh ↦
        let added = enqueue_other-Enqueued start us (next u) found queue (within u) i.once in
        let from_u : (v : ℕ) → contains (next u) v ≡ true → Reaches next start v = λ v h.
          elim (Bool-cases (u == start)) [
            | inl same ↦
                edge (subst (λ (x : ℕ). contains (next x) v ≡ true) ((==_iff u start).0 same) h)
            | inr other ↦
                step (i.sound u (ground (arith, i.queued u (ground (arith, ==_self u))))).1 h
          ] in
        rw (visit_first u found queue visited fresh) (record {
          inv = record {
            sound = λ v m. elim (Bool-cases (contains found v)) [
              | inl old ↦ i.sound v old
              | inr new ↦
                  (ground (arith, added.members v), from_u v (ground (arith, added.members v)))
            ];
            queued = λ v q. ground (arith, added.members v, added.waiting v, i.queued v);
            pending = λ v m. ground (
              arith,
              added.members v,
              added.waiting v,
              i.pending v,
              ==_iff u v,
              contains-append visited (u ∷ []) v,
            );
            closed = λ x v m h. elim (Bool-cases (u == x)) [
              | inl same ↦
                  let h' : contains (next u) v ≡ true =
                    subst (λ (y : ℕ). contains (next y) v ≡ true) (sym ((==_iff u x).0 same)) h in
                  ground (arith, added.members v, h')
              | inr other ↦
                  ground (arith, added.members v, i.closed x v, contains-append visited (u ∷ []) x)
            ];
            once = added.once;
          };
          work = added.work;
        })
  ]

  Inv-start : Inv [] (start ∷ []) []
  Inv-start = record {
    sound = λ v e. cc;
    queued = λ v e. ground (arith, ==_iff start v, ==_self v);
    pending = λ v e. ground (arith, ==_iff v start, ==_self start);
    closed = λ u v e h. cc;
    once = tt;
  }

  -- When the queue is empty, what was found is closed under steps.
  complete :
      (found visited : List ℕ)
      → Inv found [] visited
      → {v : ℕ} → Reaches next start v
      → (v == start || contains found v) ≡ true
  complete found visited i (edge {v} h) =
      i.closed start v (ground (arith, i.pending start (ground (arith, ==_self start)))) h
  complete found visited i (step {u} {v} p h) =
      i.closed u v (ground (arith, i.pending u (complete found visited i p))) h

  -- What the search has found: each hash once, and exactly those that a walk of one or more
  -- steps leads to, but not the start.
  pub record IsFound (result : List ℕ) : Type 0 where
    pub once : IsDistinct result
    pub sound : (v : ℕ) → contains result v ≡ true → ((v == start) ≡ false) × Reaches next start v
    pub complete : (v : ℕ) → (v == start) ≡ false → Reaches next start v → contains result v ≡ true

  search_loop-IsFound :
      (us : List ℕ)
      → ((u : ℕ) → Within (next u) us)
      → (fuel : ℕ) (found queue visited : List ℕ) → Inv found queue visited
      → missing us found + length queue ≤ fuel
      → (result : List ℕ) × (search_loop next start fuel found queue visited ≡ some result)
        × IsFound result
  unfolding search_loop
  search_loop-IsFound us within fuel found [] visited i h = (
    found,
    refl,
    record {
      once = i.once;
      sound = i.sound;
      complete = λ v other p. ground (arith, complete found visited i p);
    },
  )
  search_loop-IsFound us within zero found (u ∷ queue) visited i h = absurd (omega arith)
  search_loop-IsFound us within (suc fuel) found (u ∷ queue) visited i h =
      let s = visit next start u (record { found = found; queue = queue; visited = visited }) in
      let after = visit-Visited us within u found queue visited i in
      search_loop-IsFound us within fuel s.found s.queue s.visited after.inv
        (omega (arith, after.work))

  search-IsFound :
      (us : List ℕ)
      → ((u : ℕ) → Within (next u) us)
      → (result : List ℕ) × (search_loop next start (suc (length us)) [] (start ∷ []) []
          ≡ some result)
        × IsFound result
  search-IsFound us within =
      search_loop-IsFound us within (suc (length us)) [] (start ∷ []) [] Inv-start
        (omega (arith, missing-le us))

-- For every store and hash the traversal `get_ancestors` returns: its fuel is enough, also on a
-- store with cycles or missing parents. The result lists each hash once, and it lists exactly
-- the hashes other than the start to which a chain of one or more parent references leads.
pub get_ancestors-IsFound :
    (store : Table Block) (h : BlockHash)
    → (result : List BlockHash) × (get_ancestors store h ≡ some result)
      × IsFound (parents_of store) h result
unfolding get_ancestors
get_ancestors-IsFound store h =
    search-IsFound (parents_of store) h (all_parents store) (parents_of-Within store)

-- The same for `get_descendants` and the references to children.
pub get_descendants-IsFound :
    (m : Table (List BlockHash)) (h : BlockHash)
    → (result : List BlockHash) × (get_descendants m h ≡ some result)
      × IsFound (λ p. get_children p m) h result
unfolding get_descendants
get_descendants-IsFound m h =
    search-IsFound (λ p. get_children p m) h (all_children m) (children-Within m)
