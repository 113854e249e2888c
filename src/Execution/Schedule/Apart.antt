-- ===== src/Execution/Schedule/Apart.antt =====
-- What two transactions of one batch are declared to touch.
use mathlib.Core.List.{Mem}
use cytah_speed.Prelude.{
  ◌≡◌, ◌≢◌, refl, ap, true, false, List, [], ◌∷◌, map, arith, Bool-cases, inl, inr,
}
use cytah_speed.Core.Transaction.{Bytes, Transaction, Crypto, tx_hash}
use cytah_speed.Core.Block.Validity.{IsDistinct}
use cytah_speed.Execution.Access.{
  StateKey, same_bytes, same_key, has_key, is_disjoint, analyze_access, transactions_conflict,
}
use cytah_speed.Execution.Schedule.{schedule_parallel_batches}
use cytah_speed.Execution.Schedule.Batches.{Batches, IsIteration}
use cytah_speed.Execution.Schedule.Conflicts.{batch_has_no_conflict}

same_bytes-eq : (xs ys : Bytes) → same_bytes xs ys ≡ true → xs ≡ ys
same_bytes-eq [] [] same = refl
same_bytes-eq [] (y ∷ ys) same = ground (arith, same)
same_bytes-eq (x ∷ xs) [] same = ground (arith, same)
same_bytes-eq (x ∷ xs) (y ∷ ys) same = elim (Bool-cases (same_bytes xs ys)) [
  | inl rest ↦
      let tails = same_bytes-eq xs ys rest in let heads : x ≡ y = ground (arith, same) in cc
  | inr other ↦ ground (arith, other, same)
]

same_key-eq : (k l : StateKey) → same_key k l ≡ true → k ≡ l
same_key-eq (StateKey.account a) (StateKey.account b) same =
    ap StateKey.account (ground (arith, same))
same_key-eq (StateKey.contract_storage a k) (StateKey.contract_storage b l) same =
    elim (Bool-cases (same_bytes k l)) [
      | inl e ↦ let keys = same_bytes-eq k l e in let addresses : a ≡ b = ground (arith, same) in cc
      | inr other ↦ ground (arith, other, same)
    ]
same_key-eq (StateKey.contract_registry a) (StateKey.contract_registry b) same =
    ap StateKey.contract_registry (ground (arith, same))
same_key-eq (StateKey.account a) (StateKey.contract_storage b l) same = ground (arith, same)
same_key-eq (StateKey.account a) (StateKey.contract_registry b) same = ground (arith, same)
same_key-eq (StateKey.contract_storage a k) (StateKey.account b) same = ground (arith, same)
same_key-eq (StateKey.contract_storage a k) (StateKey.contract_registry b) same =
    ground (arith, same)
same_key-eq (StateKey.contract_registry a) (StateKey.account b) same = ground (arith, same)
same_key-eq (StateKey.contract_registry a) (StateKey.contract_storage b l) same =
    ground (arith, same)

-- A key of one of two disjoint sets is not in the other.
disjoint_key :
    (k : StateKey) (xs ys : List StateKey)
    → is_disjoint xs ys ≡ true
    → has_key k xs ≡ true
    → has_key k ys ≡ false
disjoint_key k [] ys apart found = ground (arith, found)
disjoint_key k (x ∷ xs) ys apart found = elim (Bool-cases (same_key k x)) [
  | inl same ↦ ground (arith, ap (λ (l : StateKey). has_key l ys) (same_key-eq k x same), apart)
  | inr other ↦ disjoint_key k xs ys (ground (arith, apart)) (ground (arith, other, found))
]

module _ (c : Crypto) where
  -- For transactions with distinct hashes, and however the map of batches iterates: of two
  -- transactions of one batch with different hashes, what `analyze_access` enters into the write
  -- set of the one (an account, a contract's storage or a registry entry) is neither in the read
  -- set nor in the write set that it gives the other.
  pub scheduled_accesses_apart :
      (order : Batches → Batches) (txs b : List Transaction) (t u : Transaction) (key : StateKey)
      → IsIteration order
      → IsDistinct (map (tx_hash c) txs)
      → Mem b (schedule_parallel_batches c order txs)
      → Mem t b
      → Mem u b
      → tx_hash c t ≢ tx_hash c u
      → has_key key (analyze_access c t).writes ≡ true
      → (has_key key (analyze_access c u).reads ≡ false)
        × (has_key key (analyze_access c u).writes ≡ false)
  unfolding transactions_conflict
  scheduled_accesses_apart order txs b t u key iterates distinct in_schedule in_t in_u other
        written =
      let apart =
        batch_has_no_conflict c order txs b t u iterates distinct in_schedule in_t in_u other in
      let x = analyze_access c t in
      let y = analyze_access c u in
      (
        disjoint_key key x.writes y.reads (ground (arith, apart)) written,
        disjoint_key key x.writes y.writes (ground (arith, apart)) written,
      )
