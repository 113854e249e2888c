-- ===== src/Execution/Schedule/Conflicts.antt =====
-- No batch holds two transactions that conflict.
use native.Mathlib.Decide.{dec_lt}
use mathlib.Core.Logic.{∥∥₁_elim}
use mathlib.Core.Bool.{Bool-set}
use mathlib.Core.List.Perm
use mathlib.Core.List.{Mem, Memᴰ}
use cytah_speed.Prelude.{
  ℕ, zero, suc, ◌+◌, ◌<◌, ◌≡◌, ◌≢◌, refl, sym, ap, ◌∙◌, true, false, some, List, [], ◌∷◌, ◌++◌, map,
  arith, unwrap_or, length, get_elem?, replicate, All, get, values, All-get, All-insert,
  Option-cases, Bool-cases, inl, inr, subst, length-map, length-replicate, All-append, All-Memᴰ,
  get_elem?-map, ◌⊎◌,
}
use cytah_speed.Core.Transaction.{Transaction, Crypto, tx_hash}
use cytah_speed.Core.Block.Validity.{IsDistinct}
use cytah_speed.Execution.Access.{
  analyze_access, transactions_conflict, node_of, build_conflict_graph,
}
use cytah_speed.Execution.Access.Graph.{link_all_pairs_conflict, transactions_conflict_comm}
use cytah_speed.Execution.Schedule.{
  color_at, number_from, push_batch, push_batches, transaction_colors, schedule_parallel_batches,
}
use cytah_speed.Execution.Schedule.Colors.{color_from-ne, get-number_from}
use cytah_speed.Execution.Schedule.Batches.{Batches, IsIteration, schedule-perm}

compare_cases : (i j : ℕ) → (i < j) ⊎ ((j < i) ⊎ (i ≡ j))
compare_cases i j = elim (dec_lt i j) [
  | yes h ↦ inl h
  | no h ↦ elim (dec_lt j i) [ yes g ↦ inr (inl g) | no g ↦ inr (inr (omega arith)) ]
]

-- A transaction of a batch stands in the list under the batch's colour.
abbrev StandsAt : List Transaction → List ℕ → ℕ → Transaction → Type 0
StandsAt txs colors k t = (i : ℕ) × (get_elem? txs i ≡ some t) × (get_elem? colors i ≡ some k)

abbrev IsColored : List Transaction → List ℕ → ℕ × List Transaction → Type 0
IsColored txs colors (k, b) = All (StandsAt txs colors k) b

push_batch-IsColored :
    (all_txs : List Transaction) (all_colors : List ℕ) (k : ℕ) (t : Transaction) (m : Batches)
    → StandsAt all_txs all_colors k t
    → All (IsColored all_txs all_colors) m
    → All (IsColored all_txs all_colors) (push_batch k t m)
unfolding push_batch
push_batch-IsColored all_txs all_colors k t m one h =
    All-insert (IsColored all_txs all_colors) k (unwrap_or (get k m) [] ++ t ∷ []) m
      (All-append (StandsAt all_txs all_colors k) (unwrap_or (get k m) []) (t ∷ []) old (one, tt)) h
  where
    old : All (StandsAt all_txs all_colors k) (unwrap_or (get k m) [])
    old = elim (Option-cases (get k m)) [
      | inl e ↦ rw e tt
      | inr (b, e) ↦ rw e (All-get (IsColored all_txs all_colors) k b m h e)
    ]

-- The suffixes that are still to be pushed stand at position s of the whole lists.
push_batches-IsColored :
    (all_txs : List Transaction) (all_colors : List ℕ) (s : ℕ) (txs : List Transaction)
    (colors : List ℕ) (m : Batches)
    → ((i : ℕ) (t : Transaction) → get_elem? txs i ≡ some t → get_elem? all_txs (s + i) ≡ some t)
    → ((i k : ℕ) → get_elem? colors i ≡ some k → get_elem? all_colors (s + i) ≡ some k)
    → All (IsColored all_txs all_colors) m
    → All (IsColored all_txs all_colors) (push_batches txs colors m)
unfolding push_batches
push_batches-IsColored all_txs all_colors s [] colors m at_tx at_color h = h
push_batches-IsColored all_txs all_colors s (t ∷ txs) [] m at_tx at_color h = h
push_batches-IsColored all_txs all_colors s (t ∷ txs) (k ∷ colors) m at_tx at_color h =
    push_batches-IsColored all_txs all_colors (s + 1) txs colors (push_batch k t m)
      (λ i u e. let there : s + suc i ≡ s + 1 + i = omega arith in rw there at (at_tx (suc i) u e))
      (λ i c e.
        let there : s + suc i ≡ s + 1 + i = omega arith in rw there at (at_color (suc i) c e))
      (push_batch-IsColored all_txs all_colors k t m
        (s + zero, at_tx zero t refl, at_color zero k refl) h)

values-entry : (b : List Transaction) (m : Batches) → Memᴰ b (values m) → (k : ℕ) × Memᴰ (k, b) m
values-entry b [] h = elim h [ ]
values-entry b ((k, d) ∷ m) (Memᴰ.head e) = (k, Memᴰ.head (ap (λ (x : List Transaction). (k, x)) e))
values-entry b ((k, d) ∷ m) (Memᴰ.tail h) =
    let (j, found) = values-entry b m h in (j, Memᴰ.tail found)

module _ (c : Crypto) where
  -- Conflicting transactions at different places have different colours.
  color-ne :
      (txs : List Transaction) (i j : ℕ) (t u : Transaction)
      → IsDistinct (map (tx_hash c) txs)
      → get_elem? txs i ≡ some t
      → get_elem? txs j ≡ some u
      → i < j
      → transactions_conflict (analyze_access c t) (analyze_access c u) ≡ true
      → color_at j (transaction_colors c txs) ≢ color_at i (transaction_colors c txs)
  unfolding transaction_colors build_conflict_graph
  color-ne txs i j t u distinct at_i at_j lt conflict =
      let hashes = map (tx_hash c) txs in
      let (edge, _) =
        link_all_pairs_conflict (node_of c t) (node_of c u) (map (node_of c) txs) i j []
          (get_elem?-map (node_of c) txs i t at_i) (get_elem?-map (node_of c) txs j u at_j) lt
          conflict in
      let first : 0 + i ≡ i = omega arith in
      let second : 0 + j ≡ j = omega arith in
      let place =
        get-number_from 0 i hashes [] (tx_hash c t) distinct
          (get_elem?-map (tx_hash c) txs i t at_i) in
      subst
        (λ (p : ℕ). color_at p (transaction_colors c txs) ≢ color_at i (transaction_colors c txs))
        second
        (color_from-ne _ (number_from 0 hashes []) 0 j i hashes (replicate (length txs) 0)
          (tx_hash c u) (tx_hash c t)
          (omega (arith, length-map (tx_hash c) txs, length-replicate {A = ℕ} (length txs) 0))
          (get_elem?-map (tx_hash c) txs j u at_j) edge (rw first at place) (omega arith))

  -- Two transactions of one colour do not conflict.
  same_color :
      (txs : List Transaction) (k : ℕ) (t u : Transaction)
      → IsDistinct (map (tx_hash c) txs)
      → StandsAt txs (transaction_colors c txs) k t
      → StandsAt txs (transaction_colors c txs) k u
      → tx_hash c t ≢ tx_hash c u
      → transactions_conflict (analyze_access c t) (analyze_access c u) ≡ false
  same_color txs k t u distinct (i, at_i, color_i) (j, at_j, color_j) other =
      elim (Bool-cases (transactions_conflict (analyze_access c t) (analyze_access c u))) [
        | inr apart ↦ apart
        | inl conflict ↦
            let back = transactions_conflict_comm (analyze_access c t) (analyze_access c u) in
            absurd (elim (compare_cases i j) [
              | inl lt ↦ color-ne txs i j t u distinct at_i at_j lt conflict (cc)
              | inr (inl gt) ↦ color-ne txs j i u t distinct at_j at_i gt (sym back ∙ conflict) (cc)
              | inr (inr e) ↦
                  let same : t ≡ u = ground (arith, sym at_i ∙ ap (get_elem? txs) e ∙ at_j) in
                  other (ap (tx_hash c) same)
            ])
      ]

  -- For transactions with distinct hashes, and however the map of batches iterates:
  -- `transactions_conflict` holds of no two transactions of one batch with different hashes.
  pub batch_has_no_conflict :
      (order : Batches → Batches) (txs b : List Transaction) (t u : Transaction)
      → IsIteration order
      → IsDistinct (map (tx_hash c) txs)
      → Mem b (schedule_parallel_batches c order txs)
      → Mem t b
      → Mem u b
      → tx_hash c t ≢ tx_hash c u
      → transactions_conflict (analyze_access c t) (analyze_access c u) ≡ false
  batch_has_no_conflict order txs b t u iterates distinct in_schedule in_t in_u other =
      let colors = transaction_colors c txs in
      let m = push_batches txs colors [] in
      let colored =
        push_batches-IsColored txs colors 0 txs colors []
          (λ i x e. let shift : 0 + i ≡ i = omega arith in rw shift e)
          (λ i x e. let shift : 0 + i ≡ i = omega arith in rw shift e) tt in
      let in_values = (Perm.mem_iff (schedule-perm c order txs iterates)).0 in_schedule in
      ∥∥₁_elim in_values (Bool-set _ _) λ found.
        let (k, entry) = values-entry b m found in
        let all = All-Memᴰ (IsColored txs colors) (k, b) m colored entry in
        ∥∥₁_elim in_t (Bool-set _ _) λ mt. ∥∥₁_elim in_u (Bool-set _ _) λ mu.
          same_color txs k t u distinct (All-Memᴰ (StandsAt txs colors k) t b all mt)
            (All-Memᴰ (StandsAt txs colors k) u b all mu) other
