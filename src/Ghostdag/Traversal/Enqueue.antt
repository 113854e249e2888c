-- ===== src/Ghostdag/Traversal/Enqueue.antt =====
-- What the inner loop of the traversals adds to the set and the queue.
use cytah_speed.Prelude.{
  ℕ, ◌+◌, ◌≤◌, ◌≡◌, refl, inl, inr, true, false, not, ◌&&◌, ◌||◌, List, [], ◌∷◌, ◌++◌, arith, ◌==◌,
  ==_iff, ==_self, contains, length, length-append, Bool-cases,
}
use cytah_speed.Core.Block.{BlockHash}
use cytah_speed.Core.Block.Validity.{IsDistinct}
use cytah_speed.Dag.Worklist.Found.{contains-append, missing, missing-new, Within}
use cytah_speed.Dag.Order.Waiting.{IsDistinct-snoc}
use cytah_speed.Ghostdag.Traversal.{enqueue_other}

module _ (start : BlockHash) where
  enqueue_other_old :
      (x : ℕ) (xs found queue : List ℕ)
      → (contains found x || x == start) ≡ true
      → enqueue_other start (x ∷ xs) (found, queue) ≡ enqueue_other start xs (found, queue)
  unfolding enqueue_other
  enqueue_other_old x xs found queue e = rw (e, enqueue_other) refl

  enqueue_other_new :
      (x : ℕ) (xs found queue : List ℕ)
      → (contains found x || x == start) ≡ false
      → enqueue_other start (x ∷ xs) (found, queue)
        ≡ enqueue_other start xs (found ++ x ∷ [], queue ++ x ∷ [])
  unfolding enqueue_other
  enqueue_other_new x xs found queue e = rw (e, enqueue_other) refl

  -- What the inner loop leaves.
  pub record Enqueued (us xs found queue found' queue' : List ℕ) : Type 0 where
    pub members :
        (v : ℕ) → contains found' v ≡ (contains found v || (contains xs v && not (v == start)))
    pub waiting :
        (v : ℕ)
        → contains queue' v
          ≡ (contains queue v || (contains xs v && not (contains found v || v == start)))
    pub work : missing us found' + length queue' ≤ missing us found + length queue
    pub once : IsDistinct found'

  pub enqueue_other-Enqueued :
      (us xs found queue : List ℕ)
      → Within xs us
      → IsDistinct found
      → let (found', queue') = enqueue_other start xs (found, queue) in
        Enqueued us xs found queue found' queue'
  unfolding enqueue_other
  enqueue_other-Enqueued us [] found queue within d = record {
    members = λ v. ground arith;
    waiting = λ v. ground arith;
    work = omega arith;
    once = d;
  }
  enqueue_other-Enqueued us (x ∷ xs) found queue within d =
      let rest : Within xs us = λ v e. within v (ground arith) in
      let here : contains us x ≡ true = within x (ground (arith, ==_self x)) in
      elim (Bool-cases (contains found x || x == start)) [
        | inl old ↦
            let later = enqueue_other-Enqueued us xs found queue rest d in
            rw (enqueue_other_old x xs found queue old) (record {
              members = λ v. ground (arith, later.members v, ==_iff x v, old);
              waiting = λ v. ground (arith, later.waiting v, ==_iff x v, old);
              work = later.work;
              once = later.once;
            })
        | inr new ↦
            let later =
              enqueue_other-Enqueued us xs (found ++ x ∷ []) (queue ++ x ∷ []) rest
                (IsDistinct-snoc found x d (ground arith)) in
            rw (enqueue_other_new x xs found queue new) (record {
              members = λ v.
                  ground
                    (arith, later.members v, ==_iff x v, new, contains-append found (x ∷ []) v);
              waiting = λ v. ground (
                arith,
                later.waiting v,
                ==_iff x v,
                new,
                contains-append found (x ∷ []) v,
                contains-append queue (x ∷ []) v,
              );
              work = omega (
                arith,
                later.work,
                missing-new us found x here (ground arith),
                length-append queue (x ∷ []),
              );
              once = later.once;
            })
      ]
