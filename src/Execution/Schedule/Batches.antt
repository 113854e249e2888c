-- ===== src/Execution/Schedule/Batches.antt =====
-- The batches together hold every transaction once.
use mathlib.Core.Path.{subst₂}
use mathlib.Core.Logic.{∥∥₁_elim}
use mathlib.Core.List.Perm
use mathlib.Core.List.{Perm, flatten, Permᴰ, append_assoc, append-nil, perm_append_comm, Perm-prop}
use cytah_speed.Prelude.{
  ℕ, ◌≡◌, refl, ap, ◌∙◌, List, [], ◌∷◌, ◌++◌, map, ◌==◌, arith, unwrap_or, length, replicate,
  if_ind, Table, get, insert, values, Bool-cases, inl, inr, subst, length-replicate,
}
use cytah_speed.Core.Transaction.{Transaction, Crypto, tx_hash}
use cytah_speed.Execution.Schedule.{
  push_batch, push_batches, insert_batch, sort_batches, transaction_colors,
  schedule_parallel_batches,
}
use cytah_speed.Execution.Schedule.Colors.{length-color_from}

abbrev pub Batches : Type 0
Batches = Table (List Transaction)

-- The map iterates over its own entries, each once.
abbrev pub IsIteration : (Batches → Batches) → Type 0
IsIteration order = (m : Batches) → Perm (order m) m

values-map : (m : Batches) → values m ≡ map (λ e. e.1) m
values-map [] = refl
values-map ((k, b) ∷ m) = ap (λ (r : List (List Transaction)). b ∷ r) (values-map m)

exchange : (x y r : List Transaction) → Perm (x ++ (y ++ r)) (y ++ (x ++ r))
exchange x y r =
    subst₂ (λ (p q : List Transaction). Perm p q) (append_assoc x y r) (append_assoc y x r)
      (Perm.append_right r (perm_append_comm x y))

flatten-perm : {xs ys : List (List Transaction)} → Permᴰ xs ys → Perm (flatten xs) (flatten ys)
unfolding flatten
flatten-perm Permᴰ.nil = Perm.rfl
flatten-perm (Permᴰ.cons {a = x} {l₁ = xs} {l₂ = ys} e p) =
    subst (λ (y : List Transaction). Perm (x ++ flatten xs) (y ++ flatten ys)) e
      (Perm.append_left x (flatten-perm p))
flatten-perm (Permᴰ.swap {a = x} {b = y} {a' = y'} {b' = x'} {l = l} e f) =
    subst (λ (z : List Transaction). Perm (x ++ (y ++ flatten l)) (z ++ (x' ++ flatten l))) f
      (subst (λ (z : List Transaction). Perm (x ++ (y ++ flatten l)) (y ++ (z ++ flatten l))) e
        (exchange x y (flatten l)))
flatten-perm (Permᴰ.trans p q) = Perm.trans (flatten-perm p) (flatten-perm q)

-- Pushing adds one transaction to the batches together.
insert-perm :
    (k : ℕ) (old : List Transaction) (t : Transaction) (m : Batches)
    → unwrap_or (get k m) [] ≡ old
    → Perm (flatten (values (insert k (old ++ t ∷ []) m))) (flatten (values m) ++ t ∷ [])
unfolding flatten get insert
insert-perm k old t [] e =
    subst (λ (o : List Transaction). Perm ((o ++ t ∷ []) ++ []) (t ∷ [])) e Perm.rfl
insert-perm k old t ((j, b) ∷ m) e = elim (Bool-cases (j == k)) [
  | inl here ↦
      let same : b ≡ old = ground arith in
      rw (here, ← same, append_assoc, append_assoc)
        (Perm.append_left b (perm_append_comm (t ∷ []) (flatten (values m))))
  | inr there ↦ rw (there, append_assoc) (Perm.append_left b (insert-perm k old t m (ground arith)))
]

push_batch-perm :
    (k : ℕ) (t : Transaction) (m : Batches)
    → Perm (flatten (values (push_batch k t m))) (flatten (values m) ++ t ∷ [])
unfolding push_batch
push_batch-perm k t m = insert-perm k (unwrap_or (get k m) []) t m refl

push_batches-perm :
    (txs : List Transaction) (colors : List ℕ) (m : Batches)
    → length colors ≡ length txs
    → Perm (flatten (values (push_batches txs colors m))) (flatten (values m) ++ txs)
unfolding push_batches
push_batches-perm [] colors m same = rw append-nil Perm.rfl
push_batches-perm (t ∷ txs) [] m same = absurd (omega arith)
push_batches-perm (t ∷ txs) (k ∷ colors) m same =
    Perm.trans (push_batches-perm txs colors (push_batch k t m) (omega arith))
      (rw append_assoc at (Perm.append_right txs (push_batch-perm k t m)))

module _ (c : Crypto) where
  insert_batch-perm :
      (index : Table ℕ) (b : List Transaction) (ds : List (List Transaction))
      → Perm (insert_batch c index b ds) (b ∷ ds)
  unfolding insert_batch
  insert_batch-perm index b [] = Perm.rfl
  insert_batch-perm index b (d ∷ ds) =
      if_ind (λ (l : List (List Transaction)). Perm l (b ∷ d ∷ ds)) _ (λ _. Perm.rfl)
        (λ _. Perm.trans (Perm.cons d (insert_batch-perm index b ds)) (Perm.swap b d ds))

  sort_batches-perm :
      (index : Table ℕ) (bs : List (List Transaction)) → Perm (sort_batches c index bs) bs
  unfolding sort_batches
  sort_batches-perm index [] = Perm.rfl
  sort_batches-perm index (b ∷ bs) =
      Perm.trans (insert_batch-perm index b (sort_batches c index bs))
        (Perm.cons b (sort_batches-perm index bs))

  pub schedule-perm :
      (order : Batches → Batches) (txs : List Transaction)
      → IsIteration order
      → Perm
          (schedule_parallel_batches c order txs)
          (values (push_batches txs (transaction_colors c txs) []))
  unfolding schedule_parallel_batches
  schedule-perm order txs iterates =
      let m = push_batches txs (transaction_colors c txs) [] in
      Perm.trans (sort_batches-perm _ (values (order m)))
        (rw (values-map (order m), values-map m) (Perm.map (λ e. e.1) (iterates m)))

  length-transaction_colors :
      (txs : List Transaction) → length (transaction_colors c txs) ≡ length txs
  unfolding transaction_colors
  length-transaction_colors txs =
      length-color_from _ _ 0 (map (tx_hash c) txs) (replicate (length txs) 0)
      ∙ length-replicate (length txs) 0

  -- However the map of batches iterates, the batches one behind the other hold exactly the given
  -- transactions, each as often as it was given.
  pub schedule_keeps_transactions :
      (order : Batches → Batches) (txs : List Transaction)
      → IsIteration order
      → Perm (flatten (schedule_parallel_batches c order txs)) txs
  unfolding flatten
  schedule_keeps_transactions order txs iterates =
      let colors = transaction_colors c txs in
      Perm.trans (∥∥₁_elim (schedule-perm order txs iterates) Perm-prop flatten-perm)
        (push_batches-perm txs colors [] (length-transaction_colors txs))
