-- ===== src/Mempool/Pool/Admission.antt =====
-- What the pool reads after a transaction has been added, or was refused.
use cytah_speed.Prelude.{
  ℕ, ◌≤◌, ◌<◌, ◌≡◌, ◌≢◌, ◌⊎◌, inl, inr, refl, ◌∷◌, Option-cases, max, Option, none, some, List, [],
  arith, length, get, IsKeyed, get-insert,
}
use cytah_speed.Core.Transaction.{Hash, Transaction, Crypto, tx_hash}
use cytah_speed.State.Manager.{get_balance}
use cytah_speed.Mempool.Pool.{
  MempoolTransaction, Pending, TxDagMempool, MempoolResult, MempoolError, check_rate,
  admission_error, admit, add_transaction, new_entry, none_waiting,
}
use cytah_speed.Mempool.Pool.Room.{IsIteration, GaveWay, price, make_room-cases, make_room-full}
use cytah_speed.Mempool.Pool.Outcomes.{counted, add_transaction_ind}

module _ (c : Crypto) (order : Pending → Pending) where
  -- What a pool admits: the transaction pays the fee, its sender has a balance, and it is new.
  abbrev pub IsAdmissible : Transaction → TxDagMempool → Pending → Type 0
  IsAdmissible tx pool base =
      (max pool.current_base_fee pool.min_gas_price ≤ tx.gas_price)
      × ((0 < get_balance tx.from pool.state) × (get (tx_hash c tx) base ≡ none))

  -- The transactions before, as they are, or without the one that gave way.
  abbrev pub HasRoom : Transaction → TxDagMempool → Pending → Type 0
  HasRoom tx pool base =
      ((base ≡ pool.transactions) × (length pool.transactions < pool.max_size))
      ⊎ ((h : Hash) × (low : MempoolTransaction) × GaveWay tx pool.transactions base h low)

  -- The transactions after: those of the base and the new one, which is ready if none of its
  -- parents is in the pool.
  abbrev pub Joins : Transaction → List Hash → Pending → Pending → Type 0
  Joins tx parents base after =
      ((k : Hash) → tx_hash c tx ≢ k → get k after ≡ get k base)
      × ((t : MempoolTransaction) × ((get (tx_hash c tx) after ≡ some t)
            × ((t.transaction ≡ tx)
                × ((t.parent_tx_hashes ≡ parents) × (t.is_ready ≡ none_waiting parents base)))))

  admissible :
      (tx : Transaction) (pool : TxDagMempool) (base : Pending)
      → admission_error c order tx pool base ≡ none
      → IsAdmissible tx pool base
  unfolding admission_error
  admissible tx pool base good = elim (Option-cases (get (tx_hash c tx) base)) [
    | inl absent ↦ (ground (arith, good), (ground (arith, good), absent))
    | inr (t, present) ↦ absurd (ground (arith, good, present))
  ]

  joins :
      (added_at : ℕ) (tx : Transaction) (parents : List Hash) (base : Pending) (pool : TxDagMempool)
      → Joins tx parents base (admit c order added_at tx parents base pool).transactions
  unfolding admit new_entry
  joins added_at tx [] base pool =
      let h = tx_hash c tx in
      let t = new_entry added_at tx [] base in
      (
        λ k other. ground (arith, get-insert k h t base),
        (t, (ground (arith, get-insert h h t base), (refl, (refl, refl)))),
      )
  joins added_at tx (p ∷ ps) base pool =
      let h = tx_hash c tx in
      let t = new_entry added_at tx (p ∷ ps) base in
      (
        λ k other. ground (arith, get-insert k h t base),
        (t, (ground (arith, get-insert h h t base), (refl, (refl, refl)))),
      )

  -- A transaction that the pool takes pays at least the base fee and the least gas price, its
  -- sender has a balance, and it was not in the pool. Either the pool was not full and keeps all
  -- that it held, or exactly one transaction gave way, which paid less than the new one and no
  -- more than any other. The new one is ready exactly if none of its parents is in the pool.
  pub add_transaction_admits :
      (now added_at : ℕ) (tx : Transaction) (parents : List Hash) (source : Option ℕ)
      (pool : TxDagMempool)
      → IsIteration order
      → IsKeyed pool.transactions
      → (add_transaction c order now added_at tx parents source pool).0 ≡ MempoolResult.ok
      → (base : Pending) × (HasRoom tx pool base
          × (IsAdmissible tx pool base
              × Joins tx parents base
                  (add_transaction c order now added_at tx parents source pool).1.transactions))
  add_transaction_admits now added_at tx parents source pool iterates keyed =
      add_transaction_ind c order
        (λ (r : MempoolResult × TxDagMempool).
          r.0 ≡ MempoolResult.ok
          → (base : Pending) × (HasRoom tx pool base
              × (IsAdmissible tx pool base × Joins tx parents base r.1.transactions)))
        now added_at tx parents source pool (λ e failed. cc) (λ txs e room failed. cc)
        (λ txs room good done. (
          txs,
          (
            make_room-cases c order pool.max_size tx pool.transactions txs iterates keyed room,
            (
              admissible tx (counted now source pool) txs good,
              joins added_at tx parents txs (counted now source pool),
            ),
          ),
        ))

  -- An unsigned transaction is refused, but not without a trace: it first pushes one out of a
  -- full pool, if it offers more than some transaction there.
  pub add_transaction_drops_cheapest :
      (now added_at k : ℕ) (t : MempoolTransaction) (tx : Transaction) (parents : List Hash)
      (pool : TxDagMempool)
      → IsIteration order
      → IsKeyed pool.transactions
      → pool.max_size ≤ length pool.transactions
      → get k pool.transactions ≡ some t
      → price t < tx.gas_price
      → tx.signature.bytes ≡ []
      → ((add_transaction c order now added_at tx parents none pool).0
          ≡ MempoolResult.err MempoolError.unsigned)
        × ((h : Hash) × (low : MempoolTransaction) × GaveWay tx pool.transactions
              (add_transaction c order now added_at tx parents none pool).1.transactions
              h
              low)
  unfolding add_transaction check_rate admission_error
  add_transaction_drops_cheapest now added_at k t tx parents pool iterates keyed full known better
        bare =
      let (h, low, (room, gone)) =
        make_room-full c order pool.max_size k t tx pool.transactions iterates keyed full known
          better in
      rw (room, bare, add_transaction, admission_error) (refl, (h, low, gone))
