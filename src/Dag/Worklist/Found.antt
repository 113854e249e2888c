-- ===== src/Dag/Worklist/Found.antt =====
-- The loop ends, and has found exactly what a walk of one or more steps reaches.
use cytah_speed.Prelude.{
  ℕ, zero, suc, ◌+◌, ◌≤◌, ◌<◌, ◌≡◌, refl, ap, subst, ◌∙◌, ◌⊎◌, inl, inr, Bool, true, false, not,
  ◌&&◌, ◌||◌, some, List, [], ◌∷◌, ◌++◌, arith, ◌==◌, ==_iff, ==_self, contains, length,
  length-append, if◌then◌else◌, Bool-cases,
}
use cytah_speed.Dag.Worklist.{enqueue, walk, Reaches, edge, step}

pub contains-append :
    (xs ys : List ℕ) (v : ℕ) → contains (xs ++ ys) v ≡ (contains xs v || contains ys v)
contains-append [] ys v = refl
contains-append (x ∷ xs) ys v = ground (arith, contains-append xs ys v)

module _ (x : ℕ) (xs found queue : List ℕ) where
  pub enqueue_old :
      contains found x ≡ true → enqueue (x ∷ xs) (found, queue) ≡ enqueue xs (found, queue)
  unfolding enqueue
  enqueue_old e =
      ap
        (λ (b : Bool).
          enqueue xs (if b then (found, queue) else (found ++ x ∷ [], queue ++ x ∷ [])))
        e

  pub enqueue_new :
      contains found x ≡ false
      → enqueue (x ∷ xs) (found, queue) ≡ enqueue xs (found ++ x ∷ [], queue ++ x ∷ [])
  unfolding enqueue
  enqueue_new e =
      ap
        (λ (b : Bool).
          enqueue xs (if b then (found, queue) else (found ++ x ∷ [], queue ++ x ∷ [])))
        e

pub found-enqueue :
    (xs found queue : List ℕ) (v : ℕ)
    → contains (enqueue xs (found, queue)).0 v ≡ (contains found v || contains xs v)
unfolding enqueue
found-enqueue [] found queue v = ground arith
found-enqueue (x ∷ xs) found queue v = elim (Bool-cases (contains found x)) [
  | inl old ↦ rw (enqueue_old x xs found queue old) (found-enqueue xs found queue v ∙ ground arith)
  | inr new ↦ rw (enqueue_new x xs found queue new) (
      found-enqueue xs (found ++ x ∷ []) (queue ++ x ∷ []) v
      ∙ ground (arith, contains-append found (x ∷ []) v))
]

pub queue-enqueue :
    (xs found queue : List ℕ) (v : ℕ)
    → contains (enqueue xs (found, queue)).1 v
      ≡ (contains queue v || (contains xs v && not (contains found v)))
unfolding enqueue
queue-enqueue [] found queue v = ground arith
queue-enqueue (x ∷ xs) found queue v = elim (Bool-cases (contains found x)) [
  | inl old ↦ rw (enqueue_old x xs found queue old) (queue-enqueue xs found queue v ∙ ground arith)
  | inr new ↦ rw (enqueue_new x xs found queue new) (
      queue-enqueue xs (found ++ x ∷ []) (queue ++ x ∷ []) v
      ∙ ground (arith, contains-append found (x ∷ []) v, contains-append queue (x ∷ []) v))
]

-- The elements of a universe that are not yet found, with repetitions.
unfoldable pub missing : List ℕ → List ℕ → ℕ
missing [] found = 0
missing (u ∷ us) found = if contains found u then missing us found else suc (missing us found)

pub missing-le : (us : List ℕ) → missing us [] ≤ length us
unfolding missing
missing-le [] = omega arith
missing-le (u ∷ us) = omega (arith, missing-le us)

pub missing_mono : (us found : List ℕ) (x : ℕ) → missing us (found ++ x ∷ []) ≤ missing us found
unfolding missing
missing_mono [] found x = omega arith
missing_mono (u ∷ us) found x =
    ground (arith, missing_mono us found x, contains-append found (x ∷ []) u)

pub missing-new :
    (us found : List ℕ) (x : ℕ)
    → contains us x ≡ true
    → contains found x ≡ false
    → missing us (found ++ x ∷ []) < missing us found
unfolding missing
missing-new [] found x h e = cc
missing-new (u ∷ us) found x h e =
    ground
      (arith, missing_mono us found x, missing-new us found x, contains-append found (x ∷ []) u)

-- All targets lie in the universe.
abbrev pub Within : List ℕ → List ℕ → Type 0
Within xs us = (v : ℕ) → contains xs v ≡ true → contains us v ≡ true

pub work-enqueue :
    (us xs found queue : List ℕ)
    → Within xs us
    → let (found', queue') = enqueue xs (found, queue) in
      missing us found' + length queue' ≤ missing us found + length queue
unfolding enqueue
work-enqueue us [] found queue h = omega arith
work-enqueue us (x ∷ xs) found queue h =
    let rest : Within xs us = λ v e. h v (ground arith) in
    let here : contains us x ≡ true = h x (ground (arith, ==_self x)) in
    elim (Bool-cases (contains found x)) [
      | inl old ↦ rw (enqueue_old x xs found queue old) (work-enqueue us xs found queue rest)
      | inr new ↦ rw (enqueue_new x xs found queue new) (
          omega (
            arith,
            work-enqueue us xs (found ++ x ∷ []) (queue ++ x ∷ []) rest,
            missing-new us found x here new,
            length-append queue (x ∷ []),
          ))
    ]

module _ (next : ℕ → List ℕ) where
  -- With a round of fuel for each element of a universe that the steps do not leave, and one
  -- for each queued element, the loop returns.
  walk_returns :
      (us : List ℕ) (closed : (u : ℕ) → Within (next u) us) (fuel : ℕ) (found queue : List ℕ)
      → missing us found + length queue ≤ fuel
      → (result : List ℕ) × (walk next fuel (found, queue) ≡ some result)
  unfolding walk
  walk_returns us closed fuel found [] h = (found, refl)
  walk_returns us closed zero found (u ∷ queue) h = absurd (omega arith)
  walk_returns us closed (suc fuel) found (u ∷ queue) h =
      let (found', queue') = enqueue (next u) (found, queue) in
      walk_returns us closed fuel found' queue'
        (omega (arith, work-enqueue us (next u) found queue (closed u)))

  module _ (start : ℕ) where
    record Inv (found queue : List ℕ) : Type 0 where
      sound : (v : ℕ) → contains found v ≡ true → Reaches next start v
      queued : (v : ℕ) → contains queue v ≡ true → (v ≡ start) ⊎ (contains found v ≡ true)
      begun :
          (contains queue start ≡ true)
          ⊎ ((v : ℕ) → contains (next start) v ≡ true → contains found v ≡ true)
      closed :
          (u v : ℕ)
          → contains found u ≡ true
          → contains (next u) v ≡ true
          → (contains queue u ≡ true) ⊎ (contains found v ≡ true)

    Inv-enqueue :
        (found queue : List ℕ) (u : ℕ)
        → Inv found (u ∷ queue)
        → let (found', queue') = enqueue (next u) (found, queue) in Inv found' queue'
    Inv-enqueue found queue u inv = record {
      sound = λ v m. elim (Bool-cases (contains found v)) [
        | inl old ↦ inv.sound v old
        | inr new ↦ from_u v (ground (arith, found' v))
      ];
      queued = λ v q. ground (arith, found' v, queue' v, inv.queued v);
      begun = elim inv.begun [
        | inl waiting ↦ elim (Bool-cases (u == start)) [
          | inl same ↦ inr (λ v h. ground (arith, found' v, (==_iff u start).0 same))
          | inr other ↦ inl (ground (arith, queue' start))
        ]
        | inr all ↦ inr (λ v h. ground (arith, found' v, all v h))
      ];
      closed = λ x v m e. ground (arith, found' x, found' v, queue' x, inv.closed x v, ==_iff u x);
    }
      where
        found' :
            (v : ℕ)
            → contains (enqueue (next u) (found, queue)).0 v
              ≡ (contains found v || contains (next u) v)
        found' v = found-enqueue (next u) found queue v

        queue' :
            (v : ℕ)
            → contains (enqueue (next u) (found, queue)).1 v
              ≡ (contains queue v || (contains (next u) v && not (contains found v)))
        queue' v = queue-enqueue (next u) found queue v

        from_u : (v : ℕ) → contains (next u) v ≡ true → Reaches next start v
        from_u v h = elim (inv.queued u (ground (arith, ==_self u))) [
          | inl same ↦ edge (subst (λ (x : ℕ). contains (next x) v ≡ true) same h)
          | inr old ↦ step (inv.sound u old) h
        ]

    -- When the queue is empty, what was found is closed under steps.
    complete :
        (found : List ℕ) → Inv found [] → {v : ℕ} → Reaches next start v → contains found v ≡ true
    complete found inv (edge {v} h) = elim inv.begun [
      | inl waiting ↦ absurd (cc)
      | inr all ↦ all v h
    ]
    complete found inv (step {u} {v} p h) = elim (inv.closed u v (complete found inv p) h) [
      | inl waiting ↦ absurd (cc)
      | inr m ↦ m
    ]

    walk_decides :
        (fuel : ℕ) (found queue result : List ℕ)
        → Inv found queue
        → walk next fuel (found, queue) ≡ some result
        → (v : ℕ)
        → (contains result v ≡ true → Reaches next start v)
          × (Reaches next start v → contains result v ≡ true)
    unfolding walk
    walk_decides fuel found [] result inv e v =
        let same : found ≡ result = cc in
        subst
          (λ (r : List ℕ).
            (contains r v ≡ true → Reaches next start v)
            × (Reaches next start v → contains r v ≡ true))
          same (inv.sound v, complete found inv)
    walk_decides zero found (u ∷ queue) result inv e v = cc
    walk_decides (suc fuel) found (u ∷ queue) result inv e v =
        let (found', queue') = enqueue (next u) (found, queue) in
        walk_decides fuel found' queue' result (Inv-enqueue found queue u inv) e v

    Inv-start : Inv [] (start ∷ [])
    Inv-start = record {
      sound = λ v e. cc;
      queued = λ v e. inl (ground arith);
      begun = inl (ground (arith, ==_self start));
      closed = λ u v e h. cc;
    }

    -- The search from a start, in a universe that the steps do not leave.
    pub search_decides :
        (us : List ℕ)
        → ((u : ℕ) → Within (next u) us)
        → (result : List ℕ) × (walk next (suc (length us)) ([], start ∷ []) ≡ some result)
          × ((v : ℕ)
              → (contains result v ≡ true → Reaches next start v)
                × (Reaches next start v → contains result v ≡ true))
    search_decides us closed =
        let (result, e) =
          walk_returns us closed (suc (length us)) [] (start ∷ []) (omega (arith, missing-le us)) in
        (result, e, walk_decides (suc (length us)) [] (start ∷ []) result Inv-start e)
