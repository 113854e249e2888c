-- ===== src/Execution/Schedule/Order.antt =====
-- The batches do not keep the order of conflicting transactions.
use mathlib.Core.Path.{ap₂}
use cytah_speed.Prelude.{
  ℕ, ◌≡◌, ◌≢◌, ◌⊎◌, inl, inr, refl, ◌∙◌, List, map, Table, true, false, [], ◌∷◌, arith, get, insert,
  values,
}
use cytah_speed.Core.Transaction.{Hash, Transaction, Crypto, tx_hash}
use cytah_speed.Dag.Index.{set_insert}
use cytah_speed.Execution.Access.{
  analyze_access, transactions_conflict, build_conflict_graph, node_of, TxNode, link_all_pairs,
}
use cytah_speed.Execution.Schedule.{
  number_from, forbidden_colors, first_free, pick_color, color_from, push_batch, push_batches,
  earliest, insert_batch, sort_batches, transaction_colors, schedule_parallel_batches,
}
use cytah_speed.Execution.Schedule.Batches.{Batches}

graph_of_three :
    (a b d : TxNode)
    → a.1 ≢ b.1
    → a.1 ≢ d.1
    → b.1 ≢ d.1
    → transactions_conflict a.0 b.0 ≡ false
    → transactions_conflict a.0 d.0 ≡ false
    → transactions_conflict b.0 d.0 ≡ true
    → link_all_pairs (a ∷ b ∷ d ∷ []) [] ≡ (b.1, d.1 ∷ []) ∷ (d.1, b.1 ∷ []) ∷ []
unfolding link_all_pairs get insert set_insert
graph_of_three a b d ab ad bd p q r = ground arith

number_three :
    (x y z : ℕ)
    → x ≢ y
    → x ≢ z
    → y ≢ z
    → number_from 0 (x ∷ y ∷ z ∷ []) [] ≡ (x, 0) ∷ (y, 1) ∷ (z, 2) ∷ []
unfolding number_from insert
number_three x y z xy xz yz = ground arith

colors_of_three :
    (x y z : ℕ)
    → x ≢ y
    → x ≢ z
    → y ≢ z
    → color_from
        ((y, z ∷ []) ∷ (z, y ∷ []) ∷ [])
        ((x, 0) ∷ (y, 1) ∷ (z, 2) ∷ [])
        0
        (x ∷ y ∷ z ∷ [])
        (0 ∷ 0 ∷ 0 ∷ [])
      ≡ 0 ∷ 1 ∷ 0 ∷ []
unfolding color_from pick_color forbidden_colors first_free get set_insert
colors_of_three x y z xy xz yz = ground arith

batches_of_three :
    (a b d : Transaction)
    → push_batches (a ∷ b ∷ d ∷ []) (0 ∷ 1 ∷ 0 ∷ []) [] ≡ (0, a ∷ d ∷ []) ∷ (1, b ∷ []) ∷ []
unfolding push_batches push_batch get insert
batches_of_three a b d = refl

module _ (c : Crypto) where
  sort_two :
      (a b d : Transaction) (m : Batches)
      → tx_hash c a ≢ tx_hash c b
      → tx_hash c a ≢ tx_hash c d
      → tx_hash c b ≢ tx_hash c d
      → (m ≡ (0, a ∷ d ∷ []) ∷ (1, b ∷ []) ∷ []) ⊎ (m ≡ (1, b ∷ []) ∷ (0, a ∷ d ∷ []) ∷ [])
      → sort_batches c ((tx_hash c a, 0) ∷ (tx_hash c b, 1) ∷ (tx_hash c d, 2) ∷ []) (values m)
        ≡ (a ∷ d ∷ []) ∷ (b ∷ []) ∷ []
  unfolding sort_batches insert_batch earliest get
  sort_two a b d m ab ad bd (inl e) = rw e (ground arith)
  sort_two a b d m ab ad bd (inr e) = rw e (ground arith)

  three_colors :
      (a b d : Transaction)
      → tx_hash c a ≢ tx_hash c b
      → tx_hash c a ≢ tx_hash c d
      → tx_hash c b ≢ tx_hash c d
      → transactions_conflict (analyze_access c a) (analyze_access c b) ≡ false
      → transactions_conflict (analyze_access c a) (analyze_access c d) ≡ false
      → transactions_conflict (analyze_access c b) (analyze_access c d) ≡ true
      → transaction_colors c (a ∷ b ∷ d ∷ []) ≡ 0 ∷ 1 ∷ 0 ∷ []
  unfolding transaction_colors build_conflict_graph
  three_colors a b d ab ad bd p q r =
      ap₂
        (λ (edges : Table (List Hash)) (index : Table ℕ).
          color_from edges index 0 (map (tx_hash c) (a ∷ b ∷ d ∷ [])) (0 ∷ 0 ∷ 0 ∷ []))
        (graph_of_three (node_of c a) (node_of c b) (node_of c d) ab ad bd p q r)
        (number_three (tx_hash c a) (tx_hash c b) (tx_hash c d) ab ad bd)
      ∙ colors_of_three (tx_hash c a) (tx_hash c b) (tx_hash c d) ab ad bd

  -- Of three transactions with different hashes let the second conflict with the third, and the
  -- first with neither. Whichever of two batches the map yields first, the third transaction
  -- stands in the first batch and the second transaction in the second one: of the two that
  -- conflict, the later one runs before the earlier one.
  pub schedule_reorders :
      (order : Batches → Batches) (a b d : Transaction)
      → ((x y : ℕ × List Transaction)
          → (order (x ∷ y ∷ []) ≡ x ∷ y ∷ []) ⊎ (order (x ∷ y ∷ []) ≡ y ∷ x ∷ []))
      → tx_hash c a ≢ tx_hash c b
      → tx_hash c a ≢ tx_hash c d
      → tx_hash c b ≢ tx_hash c d
      → transactions_conflict (analyze_access c a) (analyze_access c b) ≡ false
      → transactions_conflict (analyze_access c a) (analyze_access c d) ≡ false
      → transactions_conflict (analyze_access c b) (analyze_access c d) ≡ true
      → schedule_parallel_batches c order (a ∷ b ∷ d ∷ []) ≡ (a ∷ d ∷ []) ∷ (b ∷ []) ∷ []
  unfolding schedule_parallel_batches insert get
  schedule_reorders order a b d two ab ad bd p q r =
      ap₂
        (λ (index : Table ℕ) (colors : List ℕ).
          sort_batches c index (values (order (push_batches (a ∷ b ∷ d ∷ []) colors []))))
        (number_three (tx_hash c a) (tx_hash c b) (tx_hash c d) ab ad bd)
        (three_colors a b d ab ad bd p q r)
      ∙ sort_two a b d (order ((0, a ∷ d ∷ []) ∷ (1, b ∷ []) ∷ [])) ab ad bd
          (two (0, a ∷ d ∷ []) (1, b ∷ []))
