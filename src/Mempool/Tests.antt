-- ===== src/Mempool/Tests.antt =====
-- The theorems on the pool of transactions, at concrete inputs.
use mathlib.Core.List.Perm
use cytah_speed.Prelude.{
  ℕ, ◌≡◌, refl, true, false, none, some, List, [], ◌∷◌, arith, get, remove, be_bytes, le_bytes,
}
use cytah_speed.Samples.{sample_crypto, payment}
use cytah_speed.Core.Transaction.{Transaction, tx_hash}
use cytah_speed.State.Manager.{StateManager, get_balance}
use cytah_speed.Mempool.Pool.{
  MempoolTransaction, Pending, TxDagMempool, MempoolResult, add_transaction, rate_entry, cheapest,
}
use cytah_speed.Mempool.Pool.Room.{IsIteration}
use cytah_speed.Mempool.Pool.Bounds.{PoolEvent, IsSound, handle_all, handle_all-IsSound}
use cytah_speed.Mempool.Pool.Admission.{HasRoom, IsAdmissible, Joins, add_transaction_admits}

abbrev same : Pending → Pending
same m = m

same-IsIteration : IsIteration same
same-IsIteration m = Perm.refl m

-- Alice has 1000 coins.
abbrev ledger : StateManager
ledger = record {
  state_tree = record { root = none; leaves = (1, record { balance = 1000; nonce = 0 }) ∷ [] };
  current_state_root = 0;
}

abbrev waiting : MempoolTransaction
waiting = record { transaction = payment; parent_tx_hashes = []; timestamp = 50; is_ready = true }

-- A pool for one transaction, which it holds.
abbrev crowded : TxDagMempool
crowded = record {
  transactions = (tx_hash sample_crypto payment, waiting) ∷ [];
  parent_child_map = [];
  pending_by_sender = (1, tx_hash sample_crypto payment ∷ []) ∷ [];
  max_size = 1;
  state = ledger;
  current_base_fee = 1;
  rate_limits = (4, (7, 40)) ∷ [];
  min_gas_price = 1;
}

abbrev generous : Transaction
generous = record payment {
  gas_price = 5;
  nonce = 1;
  signature = record payment.signature { bytes = 9 ∷ [] };
}

abbrev unsigned : Transaction
unsigned = record payment { gas_price = 5; nonce = 1 }

crowded-IsSound : IsSound sample_crypto same 1 1 crowded
unfolding get
crowded-IsSound =
    (refl, (refl, (((refl, tt), (omega arith, ((refl, omega arith), tt))), (omega arith, tt))))

abbrev traffic : List PoolEvent
traffic =
    PoolEvent.add 60 61 generous (3 ∷ []) (some 4)
    ∷ PoolEvent.base_fee 7
    ∷ PoolEvent.included (tx_hash sample_crypto generous)
    ∷ PoolEvent.add 200 201 generous [] (some 5)
    ∷ []

handle_all-IsSound_example :
    IsSound sample_crypto same 1 1 (handle_all sample_crypto same traffic crowded)
handle_all-IsSound_example =
    handle_all-IsSound sample_crypto same 1 1 traffic crowded same-IsIteration crowded-IsSound

generous_admitted :
    (add_transaction sample_crypto same 60 61 generous [] (some 4) crowded).0 ≡ MempoolResult.ok
unfolding add_transaction get remove cheapest tx_hash be_bytes le_bytes rate_entry get_balance
generous_admitted = refl

add_transaction_admits_example :
    (base : Pending) × (HasRoom sample_crypto same generous crowded base
      × (IsAdmissible sample_crypto same generous crowded base
          × Joins sample_crypto same generous [] base
              (add_transaction sample_crypto same 60 61 generous []
                (some 4)
                crowded).1.transactions))
add_transaction_admits_example =
    add_transaction_admits sample_crypto same 60 61 generous [] (some 4) crowded same-IsIteration
      crowded-IsSound.1.1.0.0 generous_admitted

payment_known : get (tx_hash sample_crypto payment) crowded.transactions ≡ some waiting
unfolding get
payment_known = ground arith

abbrev child : MempoolTransaction
child = record waiting { transaction = generous; parent_tx_hashes = 8 ∷ []; is_ready = false }

abbrev parent_hash : ℕ
parent_hash = 8

abbrev family : TxDagMempool
family = record crowded {
  transactions = (parent_hash, waiting) ∷ (9, child) ∷ [];
  parent_child_map = (parent_hash, 9 ∷ []) ∷ [];
}
