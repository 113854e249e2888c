-- ===== src/Dag/Worklist.antt =====
-- The breadth-first loop that `get_all_ancestors` and `get_all_descendants` share: a queue and
-- a set of what was found, with fuel for the rounds.
pub mod Found
use cytah_speed.Prelude.{
  ℕ, zero, suc, Bool, true, Option, none, some, List, [], ◌∷◌, ◌++◌, ◌≡◌, contains, if◌then◌else◌,
}

-- The inner `for`: a neighbour that is new joins the set and the back of the queue.
unfoldable pub enqueue : List ℕ → List ℕ × List ℕ → List ℕ × List ℕ
enqueue [] w = w
enqueue (x ∷ xs) w = enqueue xs (if contains w.0 x then w else (w.0 ++ x ∷ [], w.1 ++ x ∷ []))

module _ (next : ℕ → List ℕ) where
  -- `while let Some(current) = queue.pop_front()`; `none` means that the fuel ran out.
  unfoldable pub walk : ℕ → List ℕ × List ℕ → Option (List ℕ)
  walk fuel (found, []) = some found
  walk zero (found, current ∷ queue) = none
  walk (suc fuel) (found, current ∷ queue) = walk fuel (enqueue (next current) (found, queue))

  -- The walks of one or more steps.
  pub data Reaches (start : ℕ) : ℕ → Type 0 where
    edge : {v : ℕ} → contains (next start) v ≡ true → Reaches start v
    step : {u v : ℕ} → Reaches start u → contains (next u) v ≡ true → Reaches start v
