-- ===== src/Mempool/Pool.antt =====
-- The pool of transactions (src/mempool/tx_dag_mempool.rs). A source of transactions is the
-- number that its name stands for. The order in which the map of transactions iterates is a
-- parameter, and the clock an argument.
pub mod Room
pub mod Outcomes
pub mod Removal
pub mod Bounds
pub mod Admission
use cytah_speed.Prelude.{
  ℕ, ◌+◌, max, Bool, true, false, not, ◌||◌, Option, none, some, List, [], ◌∷◌, ◌++◌, ◌==◌, leb,
  ltb, if◌then◌else◌, unwrap_or, length, all, retain, Table, get, insert, remove, values,
  contains_key, wrapping_add,
}
use cytah_speed.Core.Transaction.{Address, Hash, Transaction, Crypto, tx_hash}
use cytah_speed.State.Manager.{StateManager, get_balance}
use cytah_speed.Dag.Index.{set_insert}

pub record MempoolTransaction : Type 0 where
  pub transaction : Transaction
  pub parent_tx_hashes : List Hash
  pub timestamp : ℕ
  pub is_ready : Bool

abbrev pub Pending : Type 0
Pending = Table MempoolTransaction

-- A source has a count and the start of its window.
pub record TxDagMempool : Type 0 where
  pub transactions : Pending
  pub parent_child_map : Table (List Hash)
  pub pending_by_sender : Table (List Hash)
  pub max_size : ℕ
  pub state : StateManager
  pub current_base_fee : ℕ
  pub rate_limits : Table (ℕ × ℕ)
  pub min_gas_price : ℕ

pub data MempoolError : Type 0 where
  rate_limited full unsigned zero_balance already_known : MempoolError
  price_too_low : (price threshold : ℕ) → MempoolError

pub data MempoolResult : Type 0 where
  ok : MempoolResult
  err : MempoolError → MempoolResult

abbrev pub rate_limit_window_secs : ℕ
rate_limit_window_secs = 60

abbrev pub max_tx_per_source : ℕ
max_tx_per_source = 100

-- `TxDagMempool::new`
unfoldable pub new_mempool : ℕ → StateManager → ℕ → TxDagMempool
new_mempool max_size state min_gas_price = record {
  transactions = [];
  parent_child_map = [];
  pending_by_sender = [];
  max_size = max_size;
  state = state;
  current_base_fee = min_gas_price;
  rate_limits = [];
  min_gas_price = min_gas_price;
}

-- The entry of a source, with a new window if the old one is over.
unfoldable pub rate_entry : ℕ → ℕ → Table (ℕ × ℕ) → ℕ × ℕ
rate_entry now source rates =
    let (count, start) = unwrap_or (get source rates) (0, now) in
    if leb (wrapping_add start rate_limit_window_secs) now then (0, now) else (count, start)

-- Whether the source may go on, and the table of rates after the test.
unfoldable pub check_rate : ℕ → Option ℕ → Table (ℕ × ℕ) → Bool × Table (ℕ × ℕ)
check_rate now none rates = (true, rates)
check_rate now (some source) rates =
    let (count, start) = rate_entry now source rates in
    if leb max_tx_per_source count
    then (false, insert source (count, start) rates)
    else (true, insert source (count + 1, start) rates)

-- `min_by_key` on the gas price: of equal ones the first.
unfoldable pub cheapest : Pending → Option (Hash × MempoolTransaction)
cheapest [] = none
cheapest (e ∷ m) = elim (cheapest m) [
  | none ↦ some e
  | some d ↦ if leb e.1.transaction.gas_price d.1.transaction.gas_price then some e else some d
]

-- `parent_child.entry(parent).or_insert_with(HashSet::new).insert(child)`, for each parent.
unfoldable pub link_parents : Hash → List Hash → Table (List Hash) → Table (List Hash)
link_parents child [] m = m
link_parents child (p ∷ ps) m =
    link_parents child ps (insert p (set_insert child (unwrap_or (get p m) [])) m)

abbrev pub none_waiting : List Hash → Pending → Bool
none_waiting parents txs = all (λ p. not (contains_key p txs)) parents

abbrev pub is_empty {ℓ} : {A : Type ℓ} → List A → Bool
is_empty [] = true
is_empty (x ∷ xs) = false

-- `MempoolTransaction::new`, with the flag that `add_transaction` sets afterwards.
unfoldable pub new_entry : ℕ → Transaction → List Hash → Pending → MempoolTransaction
new_entry added_at tx parents txs = record {
  transaction = tx;
  parent_tx_hashes = parents;
  timestamp = added_at;
  is_ready = is_empty parents || none_waiting parents txs;
}

module _ (c : Crypto) (order : Pending → Pending) where
  -- The room for one more transaction: `none` if the pool is full.
  unfoldable pub make_room : ℕ → Transaction → Pending → Option Pending
  make_room max_size tx txs =
      if leb max_size (length txs)
      then elim (cheapest (order txs)) [
        | none ↦ none
        | some low ↦
            if ltb low.1.transaction.gas_price tx.gas_price then some (remove low.0 txs) else none
      ]
      else some txs

  -- The tests on the transaction itself.
  unfoldable pub admission_error : Transaction → TxDagMempool → Pending → Option MempoolError
  admission_error tx pool txs =
      let threshold = max pool.current_base_fee pool.min_gas_price in
      if is_empty tx.signature.bytes
      then some MempoolError.unsigned
      else if ltb tx.gas_price threshold
      then some (MempoolError.price_too_low tx.gas_price threshold)
      else if get_balance tx.from pool.state == 0
      then some MempoolError.zero_balance
      else if contains_key (tx_hash c tx) txs
      then some MempoolError.already_known
      else none

  -- The writes of `add_transaction`, after its tests.
  unfoldable pub admit : ℕ → Transaction → List Hash → Pending → TxDagMempool → TxDagMempool
  unfolding new_entry
  admit added_at tx parents txs pool =
      let h = tx_hash c tx in
      record pool {
        transactions = insert h (new_entry added_at tx parents txs) txs;
        parent_child_map = link_parents h parents pool.parent_child_map;
        pending_by_sender =
            insert tx.from (unwrap_or (get tx.from pool.pending_by_sender) [] ++ h ∷ [])
              pool.pending_by_sender;
      }

  -- `add_transaction`, which reads the clock for the rate and again for the entry.
  unfoldable pub add_transaction :
      ℕ → ℕ → Transaction → List Hash → Option ℕ → TxDagMempool → MempoolResult × TxDagMempool
  unfolding check_rate make_room admission_error admit
  add_transaction now added_at tx parents source pool =
      let (allowed, rates) = check_rate now source pool.rate_limits in
      let counted = record pool { rate_limits = rates } in
      if not allowed
      then (MempoolResult.err MempoolError.rate_limited, counted)
      else elim (make_room pool.max_size tx pool.transactions) [
        | none ↦ (MempoolResult.err MempoolError.full, counted)
        | some txs ↦ elim (admission_error tx counted txs) [
          | some e ↦ (MempoolResult.err e, record counted { transactions = txs })
          | none ↦ (MempoolResult.ok, admit added_at tx parents txs counted)
        ]
      ]

  -- `get_ready_transactions`
  unfoldable pub get_ready_transactions : TxDagMempool → List MempoolTransaction
  get_ready_transactions pool =
      retain (λ (t : MempoolTransaction). t.is_ready) (values (order pool.transactions))

-- The body of the loop over the children of a removed transaction.
unfoldable pub refresh_child : Hash → Pending → Pending
refresh_child child txs = elim (get child txs) [
  | none ↦ txs
  | some t ↦ insert child (record t { is_ready = none_waiting t.parent_tx_hashes txs }) txs
]

unfoldable pub refresh_children : List Hash → Pending → Pending
refresh_children [] txs = txs
refresh_children (h ∷ hs) txs = refresh_children hs (refresh_child h txs)

unfoldable pub forget_pending : Hash → Address → Table (List Hash) → Table (List Hash)
forget_pending h from m = elim (get from m) [
  | none ↦ m
  | some hs ↦ insert from (retain (λ other. not (other == h)) hs) m
]

-- `remove_transaction`: the entry of the map of children goes before the children are looked up.
unfoldable pub remove_transaction : Hash → TxDagMempool → Option MempoolTransaction × TxDagMempool
unfolding refresh_children forget_pending
remove_transaction h pool = elim (get h pool.transactions) [
  | none ↦ (none, pool)
  | some removed ↦
      let children = remove h pool.parent_child_map in
      (
        some removed,
        record pool {
          transactions =
              refresh_children (unwrap_or (get h children) []) (remove h pool.transactions);
          parent_child_map = children;
          pending_by_sender = forget_pending h removed.transaction.from pool.pending_by_sender;
        },
      )
]

unfoldable pub set_base_fee : ℕ → TxDagMempool → TxDagMempool
set_base_fee fee pool = record pool { current_base_fee = fee }

unfoldable pub clear : TxDagMempool → TxDagMempool
clear pool = record pool { transactions = []; parent_child_map = []; pending_by_sender = [] }

unfoldable pub get_sender_pending : Address → TxDagMempool → List Hash
get_sender_pending from pool = unwrap_or (get from pool.pending_by_sender) []
