-- ===== src/Dag/Order/Loop.antt =====
-- What the loop of the topological order keeps, from round to round.
use mathlib.Core.List.{append_assoc}
use cytah_speed.Prelude.{
  ℕ, zero, suc, ◌+◌, ◌≡◌, ◌<◌, ◌≤◌, refl, sym, subst, ◌∙◌, true, false, ◌||◌, none, some, List, [],
  ◌∷◌, ◌++◌, ◌==◌, ==_iff, ==_self, arith, contains, count, if◌then◌else◌, if_ind, Table, get,
  insert, get-insert, contains_key, keys, Bool-cases, inl, inr,
}
use cytah_speed.Core.Block.{BlockHash, Block}
use cytah_speed.Core.Block.Validity.{IsDistinct}
use cytah_speed.Dag.Worklist.Found.{missing, missing-new, contains-append}
use cytah_speed.Dag.Index.{get_children, parents_of}
use cytah_speed.Dag.Order.{visit_child, visit_children, order_loop}
use cytah_speed.Dag.Order.Sorting.{contains-keys}
use cytah_speed.Dag.Order.Waiting.{
  missing_next, IsOrdered, IsOrderedAfter-append, IsDistinct-snoc, IsDistinct-middle,
}

-- A block is listed among the children of a hash as often as it names that hash as a parent.
abbrev pub IsCounted : Table Block → Table (List BlockHash) → Type 0
IsCounted store children =
    (p c : BlockHash) → count c (get_children p children) ≡ count p (parents_of store c)

module _ (store : Table Block) where
  -- The parents that a block waits for: those that are not in the order yet, and those whose
  -- children are still to be visited.
  abbrev pub waits : List BlockHash → List BlockHash → BlockHash → ℕ
  waits result rest c = missing (parents_of store c) result + count c rest

  -- Between two children: rest are the children of the current block still to be visited.
  pub record Inv (rest : List BlockHash) (degree : Table ℕ) (queue result : List BlockHash)
      : Type 0 where
    pub degrees :
        (c : BlockHash)
        → get c degree ≡ (if contains_key c store then some (waits result rest c) else none)
    pub ready :
        (c : BlockHash)
        → contains_key c store ≡ true
        → (contains result c || contains queue c) ≡ (waits result rest c == 0)
    pub stored :
        (c : BlockHash)
        → (contains result c || contains queue c) ≡ true
        → contains_key c store ≡ true
    pub distinct : IsDistinct (result ++ queue)
    pub ordered : IsOrdered store result

  visit_child_unknown :
      (child : BlockHash) (degree : Table ℕ) (queue : List BlockHash)
      → get child degree ≡ none
      → visit_child child (degree, queue) ≡ (degree, queue)
  unfolding visit_child
  visit_child_unknown child degree queue e = rw (e, visit_child) refl

  visit_child_known :
      (child : BlockHash) (degree : Table ℕ) (queue : List BlockHash) (m : ℕ)
      → get child degree ≡ some (suc m)
      → visit_child child (degree, queue)
        ≡ (insert child m degree, if m == 0 then queue ++ child ∷ [] else queue)
  unfolding visit_child
  visit_child_known child degree queue m e = ground (arith, e)

  Inv-known :
      (child : BlockHash) (rest : List BlockHash) (degree : Table ℕ) (queue result : List BlockHash)
      → contains_key child store ≡ true
      → Inv (child ∷ rest) degree queue result
      → let m = waits result rest child in
        Inv rest (insert child m degree) (if m == 0 then queue ++ child ∷ [] else queue) result
  Inv-known child rest degree queue result known inv =
      let m = waits result rest child in
      let old : (contains result child || contains queue child) ≡ false =
        ground (arith, inv.ready child known, ==_self child) in
      record {
        degrees =
            λ c. ground (arith, get-insert c child m degree, inv.degrees c, known, ==_iff child c);
        ready = λ c k.
            ground
              (arith, inv.ready c k, ==_iff child c, contains-append queue (child ∷ []) c, old);
        stored = λ c k.
            ground
              (arith, inv.stored c, known, ==_iff child c, contains-append queue (child ∷ []) c);
        distinct =
            if_ind (λ (q : List BlockHash). IsDistinct (result ++ q)) (m == 0)
              (λ _. subst IsDistinct (append_assoc result queue (child ∷ [])) (
                IsDistinct-snoc (result ++ queue) child inv.distinct
                  (contains-append result queue child ∙ old)))
              (λ _. inv.distinct);
        ordered = inv.ordered;
      }

  Inv-unknown :
      (child : BlockHash) (rest : List BlockHash) (degree : Table ℕ) (queue result : List BlockHash)
      → contains_key child store ≡ false
      → Inv (child ∷ rest) degree queue result
      → Inv rest degree queue result
  Inv-unknown child rest degree queue result unknown inv = record {
    degrees = λ c. ground (arith, inv.degrees c, unknown, ==_iff child c);
    ready = λ c k. ground (arith, inv.ready c k, unknown, k, ==_iff child c);
    stored = inv.stored;
    distinct = inv.distinct;
    ordered = inv.ordered;
  }

  visit_child-Inv :
      (child : BlockHash) (rest : List BlockHash) (degree : Table ℕ) (queue result : List BlockHash)
      → Inv (child ∷ rest) degree queue result
      → let (degree', queue') = visit_child child (degree, queue) in Inv rest degree' queue' result
  visit_child-Inv child rest degree queue result inv =
      elim (Bool-cases (contains_key child store)) [
        | inl known ↦
            let found : get child degree ≡ some (suc (waits result rest child)) =
              ground (arith, inv.degrees child, known, ==_self child) in
            subst (λ (s : Table ℕ × List BlockHash). Inv rest s.0 s.1 result)
              (sym (visit_child_known child degree queue (waits result rest child) found))
              (Inv-known child rest degree queue result known inv)
        | inr unknown ↦
            let absent : get child degree ≡ none = ground (arith, inv.degrees child, unknown) in
            subst (λ (s : Table ℕ × List BlockHash). Inv rest s.0 s.1 result)
              (sym (visit_child_unknown child degree queue absent))
              (Inv-unknown child rest degree queue result unknown inv)
      ]

  visit_children-Inv :
      (rest : List BlockHash) (degree : Table ℕ) (queue result : List BlockHash)
      → Inv rest degree queue result
      → let (degree', queue') = visit_children rest (degree, queue) in Inv [] degree' queue' result
  unfolding visit_children
  visit_children-Inv [] degree queue result inv = inv
  visit_children-Inv (child ∷ rest) degree queue result inv =
      let (degree', queue') = visit_child child (degree, queue) in
      visit_children-Inv rest degree' queue' result
        (visit_child-Inv child rest degree queue result inv)

  -- Taking the current block out of the queue, before its children are visited.
  Inv-pop :
      (children : Table (List BlockHash)) (current : BlockHash) (degree : Table ℕ)
      (queue result : List BlockHash)
      → IsCounted store children
      → Inv [] degree (current ∷ queue) result
      → Inv (get_children current children) degree queue (result ++ current ∷ [])
  Inv-pop children current degree queue result counted inv =
      let new = (IsDistinct-middle result queue current inv.distinct).0 in
      let same = λ (c : BlockHash). missing_next (parents_of store c) result current new in
      let member = λ (c : BlockHash). contains-append result (current ∷ []) c in
      record {
        degrees = λ c. ground (arith, inv.degrees c, same c, counted current c);
        ready = λ c k. ground (arith, inv.ready c k, same c, counted current c, member c);
        stored = λ c k. ground (arith, inv.stored c, member c);
        distinct = subst IsDistinct (sym (append_assoc result (current ∷ []) queue)) inv.distinct;
        ordered = IsOrderedAfter-append store [] result (current ∷ []) inv.ordered (
          ground (
            arith,
            inv.ready current (inv.stored current (ground (arith, ==_self current))),
            ==_self current,
          ),
          tt,
        );
      }

  missing-current :
      (current : BlockHash) (degree : Table ℕ) (queue result : List BlockHash)
      → Inv [] degree (current ∷ queue) result
      → missing (keys store) (result ++ current ∷ []) < missing (keys store) result
  missing-current current degree queue result inv =
      missing-new (keys store) result current
        (contains-keys store current ∙ inv.stored current (ground (arith, ==_self current)))
        (IsDistinct-middle result queue current inv.distinct).0

  module _ (children : Table (List BlockHash)) (counted : IsCounted store children) where
    -- A round of fuel for each block that is not yet in the order is enough.
    pub order_loop_returns :
        (fuel : ℕ) (degree : Table ℕ) (queue result : List BlockHash)
        → Inv [] degree queue result
        → missing (keys store) result ≤ fuel
        → (order : List BlockHash) × (degree' : Table ℕ) × (order_loop children fuel
              (degree, queue)
              result
            ≡ some order)
          × Inv [] degree' [] order
    unfolding order_loop
    order_loop_returns fuel degree [] result inv small = (result, degree, refl, inv)
    order_loop_returns zero degree (current ∷ queue) result inv small =
        absurd (omega (arith, missing-current current degree queue result inv))
    order_loop_returns (suc fuel) degree (current ∷ queue) result inv small =
        let (degree', queue') = visit_children (get_children current children) (degree, queue) in
        order_loop_returns fuel degree' queue' (result ++ current ∷ [])
          (visit_children-Inv (get_children current children) degree queue (result ++ current ∷ [])
            (Inv-pop children current degree queue result counted inv))
          (omega (arith, missing-current current degree queue result inv))
