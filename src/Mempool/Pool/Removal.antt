-- ===== src/Mempool/Pool/Removal.antt =====
-- The removal of a transaction from the pool.
use cytah_speed.Prelude.{
  ◌≡◌, ◌≢◌, inl, inr, refl, ap, true, false, none, some, List, [], ◌∷◌, arith, ◌==◌, if◌then◌else◌,
  unwrap_or, Table, get, remove, get-remove, Option-cases,
}
use cytah_speed.Core.Transaction.{Hash}
use cytah_speed.Mempool.Pool.{
  MempoolTransaction, TxDagMempool, refresh_children, forget_pending, remove_transaction,
  none_waiting,
}

no_children : (h : Hash) (m : Table (List Hash)) → unwrap_or (get h (remove h m)) [] ≡ []
no_children h m = ground (arith, get-remove h h m)

-- The pool without the transaction.
abbrev pub without : Hash → MempoolTransaction → TxDagMempool → TxDagMempool
without h t pool = record pool {
  transactions = remove h pool.transactions;
  parent_child_map = remove h pool.parent_child_map;
  pending_by_sender = forget_pending h t.transaction.from pool.pending_by_sender;
}

pub remove_transaction-eq :
    (h : Hash) (t : MempoolTransaction) (pool : TxDagMempool)
    → get h pool.transactions ≡ some t
    → (remove_transaction h pool).1 ≡ without h t pool
unfolding remove_transaction refresh_children
remove_transaction-eq h t pool known =
    rw (known, remove_transaction)
      (ap
        (λ (hs : List Hash). record (without h t pool) {
          transactions = refresh_children hs (remove h pool.transactions);
        })
        (no_children h pool.parent_child_map))

pub remove_transaction-absent :
    (h : Hash) (pool : TxDagMempool)
    → get h pool.transactions ≡ none
    → (remove_transaction h pool).1 ≡ pool
unfolding remove_transaction
remove_transaction-absent h pool absent = rw (absent, remove_transaction) refl

-- Removing a transaction takes out its own entry and leaves every other entry as it was, its
-- flag included. So a transaction that waits for this one alone, and is not ready, is not ready
-- afterwards either, though none of its parents is in the pool any more.
pub remove_transaction_strands :
    (h k : Hash) (pool : TxDagMempool)
    → (get k (remove_transaction h pool).1.transactions
        ≡ (if h == k then none else get k pool.transactions))
      × ((child : MempoolTransaction)
          → h ≢ k
          → get k pool.transactions ≡ some child
          → child.parent_tx_hashes ≡ h ∷ []
          → child.is_ready ≡ false
          → (get k (remove_transaction h pool).1.transactions ≡ some child)
            × (none_waiting child.parent_tx_hashes (remove_transaction h pool).1.transactions
                ≡ true))
remove_transaction_strands h k pool = elim (Option-cases (get h pool.transactions)) [
  | inl absent ↦ ground (arith, absent, remove_transaction-absent h pool absent)
  | inr (t, known) ↦ ground (
    arith,
    remove_transaction-eq h t pool known,
    get-remove k h pool.transactions,
    get-remove h h pool.transactions,
  )
]
