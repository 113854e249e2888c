-- ===== src/Mempool/Pool/Outcomes.antt =====
-- The ways in which adding a transaction to the pool ends.
use cytah_speed.Prelude.{ℕ, ◌≡◌, not, Option, none, some, List, if_ind, match_ind}
use cytah_speed.Core.Transaction.{Hash, Transaction, Crypto}
use cytah_speed.Mempool.Pool.{
  Pending, TxDagMempool, MempoolError, MempoolResult, check_rate, make_room, admission_error, admit,
  add_transaction,
}

-- The pool after the source has been counted.
abbrev pub counted : ℕ → Option ℕ → TxDagMempool → TxDagMempool
counted now source pool = record pool { rate_limits = (check_rate now source pool.rate_limits).1 }

module _ (c : Crypto) (order : Pending → Pending) where
  -- To prove something of a run: for a refusal before there was room, for one after it, and for
  -- an admission.
  pub add_transaction_ind {κ} :
      (P : MempoolResult × TxDagMempool → Type κ) (now added_at : ℕ) (tx : Transaction)
      (parents : List Hash) (source : Option ℕ) (pool : TxDagMempool)
      → ((e : MempoolError) → P (MempoolResult.err e, counted now source pool))
      → ((txs : Pending) (e : MempoolError)
          → make_room c order pool.max_size tx pool.transactions ≡ some txs
          → P (MempoolResult.err e, record (counted now source pool) { transactions = txs }))
      → ((txs : Pending)
          → make_room c order pool.max_size tx pool.transactions ≡ some txs
          → admission_error c order tx (counted now source pool) txs ≡ none
          → P (MempoolResult.ok, admit c order added_at tx parents txs (counted now source pool)))
      → P (add_transaction c order now added_at tx parents source pool)
  unfolding add_transaction
  add_transaction_ind P now added_at tx parents source pool early late admitted =
      if_ind P (not (check_rate now source pool.rate_limits).0) (λ _. early _)
        (λ _.
          match_ind P (make_room c order pool.max_size tx pool.transactions) (λ _. early _)
            (λ txs room.
              match_ind P (admission_error c order tx (counted now source pool) txs)
                (λ good. admitted txs room good) (λ e _. late txs e room)))
