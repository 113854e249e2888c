-- ===== src/Ghostdag/Path/Found.antt =====
-- The search ends, and finds a path exactly if there is one.
use cytah_speed.Prelude.{
  ℕ, zero, suc, ◌+◌, ◌≤◌, ◌≡◌, ◌⊎◌, refl, ap, sym, subst, ◌∙◌, true, false, not, ◌&&◌, ◌||◌, Option,
  none, some, List, [], ◌∷◌, ◌++◌, arith, ◌==◌, ==_iff, ==_self, contains, length, Table, get,
  insert, Bool-cases, inl, inr,
}
use mathlib.Core.List.{reverse}
use cytah_speed.Core.Block.{BlockHash, Block}
use cytah_speed.Dag.Index.{parents_of, all_parents}
use cytah_speed.Dag.Index.Search.{Ancestor, parents_of-Within}
use cytah_speed.Dag.Worklist.{enqueue, edge, step}
use cytah_speed.Dag.Worklist.Found.{
  contains-append, missing, missing-le, missing_mono, work-enqueue, found-enqueue, queue-enqueue,
  enqueue_old, enqueue_new,
}
use cytah_speed.Ghostdag.Path.{PathState, queue_parents, path_loop, get_path}
use cytah_speed.Ghostdag.Path.Trails.{
  Descends, Trail, Trail-Descends, Trail-trace, IsMarked, IsMarked-insert,
}

module _ (current p : BlockHash) (ps : List BlockHash) (s : PathState) where
  queue_parents_old :
      contains s.visited p ≡ true → queue_parents current (p ∷ ps) s ≡ queue_parents current ps s
  unfolding queue_parents
  queue_parents_old e = rw (e, queue_parents) refl

  queue_parents_new :
      contains s.visited p ≡ false
      → queue_parents current (p ∷ ps) s
        ≡ queue_parents current ps (record {
          visited = s.visited ++ p ∷ [];
          queue = s.queue ++ p ∷ [];
          parent_map = insert p current s.parent_map;
        })
  unfolding queue_parents
  queue_parents_new e = rw (e, queue_parents) refl

-- Visited blocks and queue are those of the other searches.
queue_parents-enqueue :
    (current : BlockHash) (ps : List BlockHash) (s : PathState)
    → ((queue_parents current ps s).visited ≡ (enqueue ps (s.visited, s.queue)).0)
      × ((queue_parents current ps s).queue ≡ (enqueue ps (s.visited, s.queue)).1)
unfolding queue_parents enqueue
queue_parents-enqueue current [] s = (refl, refl)
queue_parents-enqueue current (p ∷ ps) s = elim (Bool-cases (contains s.visited p)) [
  | inl old ↦
      rw (queue_parents_old current p ps s old, enqueue_old p ps s.visited s.queue old)
        (queue_parents-enqueue current ps s)
  | inr new ↦
      rw (queue_parents_new current p ps s new, enqueue_new p ps s.visited s.queue new)
        (queue_parents-enqueue current ps _)
]

module _ (store : Table Block) (to : BlockHash) where
  queue_parents-IsMarked :
      (current : BlockHash) (ps : List BlockHash) (s : PathState)
      → ((p : BlockHash) → contains ps p ≡ true → contains (parents_of store current) p ≡ true)
      → contains s.visited current ≡ true
      → IsMarked store to s.parent_map s.visited
      → let s' = queue_parents current ps s in IsMarked store to s'.parent_map s'.visited
  unfolding queue_parents
  queue_parents-IsMarked current [] s named known marked = marked
  queue_parents-IsMarked current (p ∷ ps) s named known marked =
      let later : (q : BlockHash)
          → contains ps q ≡ true
          → contains (parents_of store current) q ≡ true =
        λ q m. named q (ground (arith, m)) in
      elim (Bool-cases (contains s.visited p)) [
        | inl old ↦
            rw (queue_parents_old current p ps s old)
              (queue_parents-IsMarked current ps s later known marked)
        | inr new ↦ rw (queue_parents_new current p ps s new) (
            queue_parents-IsMarked current ps _ later
              (ground (arith, contains-append s.visited (p ∷ []) current, known))
              (IsMarked-insert store to s.parent_map s.visited current p marked known new
                (named p (ground (arith, ==_self p)))))
      ]

  module _ (from : BlockHash) where
    -- From round to round.
    record Inv (queue visited : List BlockHash) (parent_map : Table BlockHash) : Type 0 where
      marked : IsMarked store to parent_map visited
      begun : contains visited to ≡ true
      queued : (v : BlockHash) → contains queue v ≡ true → contains visited v ≡ true
      passed :
          (u : BlockHash)
          → contains visited u ≡ true
          → contains queue u ≡ false
          → (u == from) ≡ false
      closed :
          (u v : BlockHash)
          → contains visited u ≡ true
          → contains queue u ≡ false
          → contains (parents_of store u) v ≡ true
          → contains visited v ≡ true

    Inv-start : Inv (to ∷ []) (to ∷ []) []
    unfolding get
    Inv-start = record {
      marked = λ v m.
          subst
            (λ (x : BlockHash).
              (n : ℕ) × (path : List BlockHash) × Trail store to [] (to ∷ []) n x path × (n ≤ 1))
            ((==_iff to v).0 (ground (arith, m)))
            (1, to ∷ [], Trail.base refl (ground (arith, ==_self to)), omega arith);
      begun = ground (arith, ==_self to);
      queued = λ v m. m;
      passed = λ u m out. cc;
      closed = λ u v m out named. cc;
    }

    Inv-next :
        (current : BlockHash) (queue visited : List BlockHash) (parent_map : Table BlockHash)
        → Inv (current ∷ queue) visited parent_map
        → (current == from) ≡ false
        → let s =
            queue_parents current
              (parents_of store current)
              (record { visited = visited; queue = queue; parent_map = parent_map }) in
          Inv s.queue s.visited s.parent_map
    Inv-next current queue visited parent_map i other = record {
      marked =
          queue_parents-IsMarked current ps
            (record { visited = visited; queue = queue; parent_map = parent_map }) (λ p m. m) known
            i.marked;
      begun = ground (arith, found to, i.begun);
      queued = λ v m. ground (arith, m, found v, waits v, i.queued v);
      passed =
          λ u m out. ground (arith, m, out, found u, waits u, i.passed u, ==_iff current u, other);
      closed = λ u v m out named. elim (Bool-cases (current == u)) [
        | inl same ↦
            let named' : contains ps v ≡ true =
              subst (λ (x : BlockHash). contains (parents_of store x) v ≡ true)
                (sym ((==_iff current u).0 same)) named in
            ground (arith, found v, named')
        | inr elsewhere ↦
            ground (arith, m, out, named, found u, found v, waits u, i.closed u v, elsewhere)
      ];
    }
      where
        ps : List BlockHash
        ps = parents_of store current

        known : contains visited current ≡ true
        known = i.queued current (ground (arith, ==_self current))

        s : PathState
        s =
            queue_parents current ps
              (record { visited = visited; queue = queue; parent_map = parent_map })

        same_walk :
            (s.visited ≡ (enqueue ps (visited, queue)).0)
            × (s.queue ≡ (enqueue ps (visited, queue)).1)
        same_walk = queue_parents-enqueue current ps _

        found : (v : BlockHash) → contains s.visited v ≡ (contains visited v || contains ps v)
        found v =
            ap (λ (l : List BlockHash). contains l v) same_walk.0 ∙ found-enqueue ps visited queue v

        waits :
            (v : BlockHash)
            → contains s.queue v ≡ (contains queue v || (contains ps v && not (contains visited v)))
        waits v =
            ap (λ (l : List BlockHash). contains l v) same_walk.1 ∙ queue-enqueue ps visited queue v

    -- The answer: a path back, or none, and then `from` is neither `to` nor an ancestor of it.
    unfoldable pub IsPath : Option (List BlockHash) → Type 0
    IsPath none = ((to ≡ from) ⊎ Ancestor store to from) → ⊥
    IsPath (some path) = Descends store to from path

    exhausted :
        (visited : List BlockHash) (parent_map : Table BlockHash)
        → Inv [] visited parent_map
        → IsPath none
    unfolding IsPath
    exhausted visited parent_map i (inl same) =
        ground (arith, i.passed to i.begun refl, ==_iff to from, same)
    exhausted visited parent_map i (inr p) =
        ground (arith, i.passed from (reached p) refl, ==_self from)
      where
        reached : {v : BlockHash} → Ancestor store to v → contains visited v ≡ true
        reached (edge h) = i.closed to _ i.begun refl h
        reached (step q h) = i.closed _ _ (reached q) refl h

    stops_here :
        (fuel : ℕ) (current : BlockHash) (queue visited : List BlockHash)
        (parent_map : Table BlockHash)
        → Inv (current ∷ queue) visited parent_map
        → (current == from) ≡ true
        → (answer : Option (List BlockHash)) × (path_loop store from
              (suc fuel)
              (current ∷ queue)
              visited
              parent_map
            ≡ some answer)
          × IsPath answer
    unfolding path_loop IsPath
    stops_here fuel current queue visited parent_map i here =
        let known : contains visited current ≡ true =
          i.queued current (ground (arith, ==_self current)) in
        let (n, path, trail, short) = i.marked current known in
        let traced = Trail-trace store to parent_map visited (length visited) trail short in
        (
          some (reverse path),
          rw (here, traced, path_loop) refl,
          subst (λ (x : BlockHash). Descends store to x (reverse path))
              ((==_iff current from).0 here) (Trail-Descends store to parent_map visited trail),
        )

    path_loop-IsPath :
        (fuel : ℕ) (queue visited : List BlockHash) (parent_map : Table BlockHash)
        → Inv queue visited parent_map
        → missing (all_parents store) visited + length queue ≤ fuel
        → (answer : Option (List BlockHash)) × (path_loop store from fuel queue visited parent_map
            ≡ some answer)
          × IsPath answer
    unfolding path_loop
    path_loop-IsPath fuel [] visited parent_map i work =
        (none, refl, exhausted visited parent_map i)
    path_loop-IsPath zero (current ∷ queue) visited parent_map i work = absurd (omega arith)
    path_loop-IsPath (suc fuel) (current ∷ queue) visited parent_map i work =
        elim (Bool-cases (current == from)) [
          | inl here ↦ stops_here fuel current queue visited parent_map i here
          | inr other ↦
              let ps = parents_of store current in
              let s =
                queue_parents current ps
                  (record { visited = visited; queue = queue; parent_map = parent_map }) in
              let (same_visited, same_queue) =
                queue_parents-enqueue current ps
                  (record { visited = visited; queue = queue; parent_map = parent_map }) in
              let less =
                work-enqueue (all_parents store) ps visited queue
                  (parents_of-Within store current) in
              let left : missing (all_parents store) s.visited + length s.queue ≤ fuel =
                rw (same_visited, same_queue) (omega (arith, less, work)) in
              let (answer, returned, right) =
                path_loop-IsPath fuel s.queue s.visited s.parent_map
                  (Inv-next current queue visited parent_map i other) left in
              (answer, rw (other, path_loop) returned, right)
        ]

-- For every store and two hashes `get_path` returns: its fuel is enough, also on a store with
-- cycles or missing parents. It returns a path exactly if the first hash is the second or an
-- ancestor of it. The path begins with the second hash and ends with the first, and each further
-- hash on it is a parent of the one before.
pub get_path-IsPath :
    (store : Table Block) (from to : BlockHash)
    → (answer : Option (List BlockHash)) × (get_path store from to ≡ some answer)
      × IsPath store to from answer
unfolding get_path
get_path-IsPath store from to =
    path_loop-IsPath store to from (suc (length (all_parents store))) (to ∷ []) (to ∷ []) []
      (Inv-start store to from)
      (omega (arith, missing-le (all_parents store), missing_mono (all_parents store) [] to))
