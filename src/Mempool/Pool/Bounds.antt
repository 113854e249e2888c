-- ===== src/Mempool/Pool/Bounds.antt =====
-- What every pool satisfies, whatever is done to it.
use cytah_speed.Prelude.{
  ℕ, ◌≤◌, ◌<◌, ◌≡◌, inl, inr, refl, sym, subst, Bool, Option, none, some, List, [], ◌∷◌, leb, arith,
  length, Table, All, get, remove, IsKeyed, insert-IsKeyed, remove-IsKeyed, length-insert,
  length-remove, All-get, All-insert, All-remove, Option-cases, if_ind,
}
use cytah_speed.Core.Transaction.{Hash, Transaction, Crypto, tx_hash}
use cytah_speed.State.Manager.{StateManager}
use cytah_speed.Mempool.Pool.{
  MempoolTransaction, Pending, TxDagMempool, MempoolResult, rate_entry, check_rate, make_room,
  admission_error, admit, add_transaction, remove_transaction, set_base_fee, clear, new_entry,
}
use cytah_speed.Mempool.Pool.Room.{IsIteration, price, make_room-cases}
use cytah_speed.Mempool.Pool.Removal.{remove_transaction-eq, remove_transaction-absent}
use cytah_speed.Mempool.Pool.Outcomes.{counted, add_transaction_ind}

-- What the node does to its pool; between two calls the balances may change.
pub data PoolEvent : Type 0 where
  add : (now added_at : ℕ) (tx : Transaction) (parents : List Hash) (source : Option ℕ) → PoolEvent
  included : (h : Hash) → PoolEvent
  base_fee : (fee : ℕ) → PoolEvent
  cleared : PoolEvent
  new_state : (state : StateManager) → PoolEvent

-- No source counts more transactions than a window allows.
abbrev pub IsCounted : ℕ × (ℕ × ℕ) → Type 0
IsCounted (source, window) = window.0 ≤ 100

rate_entry-le :
    (now source : ℕ) (rates : Table (ℕ × ℕ))
    → All IsCounted rates
    → (rate_entry now source rates).0 ≤ 100
unfolding rate_entry
rate_entry-le now source rates h = elim (Option-cases (get source rates)) [
  | inl absent ↦ ground (arith, absent)
  | inr (e, present) ↦ ground (arith, present, All-get IsCounted source e rates h present)
]

check_rate-IsCounted :
    (now : ℕ) (source : Option ℕ) (rates : Table (ℕ × ℕ))
    → All IsCounted rates
    → All IsCounted (check_rate now source rates).1
unfolding check_rate
check_rate-IsCounted now none rates h = h
check_rate-IsCounted now (some source) rates h =
    let few = rate_entry-le now source rates h in
    if_ind (λ (r : Bool × Table (ℕ × ℕ)). All IsCounted r.1)
      (leb 100 (rate_entry now source rates).0) (λ _. All-insert IsCounted source _ rates few h)
      (λ less. All-insert IsCounted source _ rates (ground (arith, less)) h)

module _ (c : Crypto) (order : Pending → Pending) where
  unfoldable pub handle : PoolEvent → TxDagMempool → TxDagMempool
  handle (PoolEvent.add now added_at tx parents source) pool =
      (add_transaction c order now added_at tx parents source pool).1
  handle (PoolEvent.included h) pool = (remove_transaction h pool).1
  handle (PoolEvent.base_fee fee) pool = set_base_fee fee pool
  handle PoolEvent.cleared pool = clear pool
  handle (PoolEvent.new_state state) pool = record pool { state = state }

  unfoldable pub handle_all : List PoolEvent → TxDagMempool → TxDagMempool
  handle_all [] pool = pool
  handle_all (e ∷ es) pool = handle_all es (handle e pool)

  -- An entry stands under its transaction's hash, and pays the least price that the pool takes.
  abbrev pub IsPriced : ℕ → Hash × MempoolTransaction → Type 0
  IsPriced least (h, t) = (h ≡ tx_hash c t.transaction) × (least ≤ price t)

  abbrev pub HoldsPriced : ℕ → ℕ → Pending → Type 0
  HoldsPriced most least txs = IsKeyed txs × ((length txs ≤ most) × All (IsPriced least) txs)

  abbrev pub IsSound : ℕ → ℕ → TxDagMempool → Type 0
  IsSound most least pool =
      (pool.max_size ≡ most)
      × ((pool.min_gas_price ≡ least)
          × (HoldsPriced most least pool.transactions × All IsCounted pool.rate_limits))

  remove-HoldsPriced :
      (most least : ℕ) (h : Hash) (txs : Pending)
      → HoldsPriced most least txs
      → HoldsPriced most least (remove h txs)
  remove-HoldsPriced most least h txs (keyed, (few, priced)) = (
    remove-IsKeyed h txs keyed,
    (ground (arith, length-remove h txs keyed), All-remove (IsPriced least) h txs priced),
  )

  -- Making room leaves room for one.
  make_room-HoldsPriced :
      (most least : ℕ) (tx : Transaction) (txs after : Pending)
      → IsIteration order
      → HoldsPriced most least txs
      → make_room c order most tx txs ≡ some after
      → HoldsPriced most least after × (length after < most)
  make_room-HoldsPriced most least tx txs after iterates holds room =
      elim (make_room-cases c order most tx txs after iterates holds.0 room) [
        | inl (same, free) ↦
            (subst (HoldsPriced most least) (sym same) holds, ground (arith, same, free))
        | inr (h, low, (known, (same, rest))) ↦ (
          subst (HoldsPriced most least) (sym same) (remove-HoldsPriced most least h txs holds),
          ground (arith, same, known, length-remove h txs holds.0, holds.1.0),
        )
      ]

  -- An admitted transaction has passed the tests on its price.
  admitted-IsPriced :
      (most least : ℕ) (added_at : ℕ) (tx : Transaction) (parents : List Hash) (txs : Pending)
      (pool : TxDagMempool)
      → pool.min_gas_price ≡ least
      → HoldsPriced most least txs
      → length txs < most
      → admission_error c order tx pool txs ≡ none
      → HoldsPriced most least (admit c order added_at tx parents txs pool).transactions
  unfolding admission_error admit
  admitted-IsPriced most least added_at tx parents txs pool same (keyed, (few, priced)) room good =
      let h = tx_hash c tx in
      let t = new_entry added_at tx parents txs in
      (
        insert-IsKeyed h t txs keyed,
        (
          ground (arith, length-insert h t txs),
          All-insert (IsPriced least) h t txs (refl, ground (arith, same, good)) priced,
        ),
      )

  add-IsSound :
      (most least now added_at : ℕ) (tx : Transaction) (parents : List Hash) (source : Option ℕ)
      (pool : TxDagMempool)
      → IsIteration order
      → IsSound most least pool
      → IsSound most least (add_transaction c order now added_at tx parents source pool).1
  unfolding admit
  add-IsSound most least now added_at tx parents source pool iterates
        (max_same, (min_same, (holds, rates))) =
      let fewer = check_rate-IsCounted now source pool.rate_limits rates in
      let room-HoldsPriced : (txs : Pending)
          → make_room c order pool.max_size tx pool.transactions ≡ some txs
          → HoldsPriced most least txs × (length txs < most) =
        λ txs room.
          make_room-HoldsPriced most least tx pool.transactions txs iterates holds (
            subst (λ (n : ℕ). make_room c order n tx pool.transactions ≡ some txs) max_same room) in
      add_transaction_ind c order (λ (r : MempoolResult × TxDagMempool). IsSound most least r.1) now
        added_at tx parents source pool (λ e. (max_same, (min_same, (holds, fewer))))
        (λ txs e room. (max_same, (min_same, ((room-HoldsPriced txs room).0, fewer))))
        (λ txs room good.
          let (left, free) = room-HoldsPriced txs room in
          (
            max_same,
            (
              min_same,
              (
                admitted-IsPriced most least added_at tx parents txs (counted now source pool)
                    min_same left free good,
                fewer,
              ),
            ),
          ))

  remove-IsSound :
      (most least : ℕ) (h : Hash) (pool : TxDagMempool)
      → IsSound most least pool
      → IsSound most least (remove_transaction h pool).1
  remove-IsSound most least h pool sound = elim (Option-cases (get h pool.transactions)) [
    | inl absent ↦ subst (IsSound most least) (sym (remove_transaction-absent h pool absent)) sound
    | inr (t, known) ↦ subst (IsSound most least) (sym (remove_transaction-eq h t pool known)) (
      sound.0,
      (sound.1.0, (remove-HoldsPriced most least h pool.transactions sound.1.1.0, sound.1.1.1)),
    )
  ]

  handle-IsSound :
      (most least : ℕ) (e : PoolEvent) (pool : TxDagMempool)
      → IsIteration order
      → IsSound most least pool
      → IsSound most least (handle e pool)
  unfolding handle set_base_fee clear
  handle-IsSound most least (PoolEvent.add now added_at tx parents source) pool iterates sound =
      add-IsSound most least now added_at tx parents source pool iterates sound
  handle-IsSound most least (PoolEvent.included h) pool iterates sound =
      remove-IsSound most least h pool sound
  handle-IsSound most least (PoolEvent.base_fee fee) pool iterates sound = sound
  handle-IsSound most least PoolEvent.cleared pool iterates sound =
      (sound.0, (sound.1.0, ((tt, (omega arith, tt)), sound.1.1.1)))
  handle-IsSound most least (PoolEvent.new_state state) pool iterates sound = sound

  -- Whatever happens to a sound pool (such as an empty one), in whatever order and however the
  -- map of transactions iterates, it stays sound: it holds at most `max_size` transactions, each
  -- once and under its own hash, none of which pays less than the least gas price, and no source
  -- is counted for more than 100 transactions in its window.
  pub handle_all-IsSound :
      (most least : ℕ) (es : List PoolEvent) (pool : TxDagMempool)
      → IsIteration order
      → IsSound most least pool
      → IsSound most least (handle_all es pool)
  unfolding handle_all
  handle_all-IsSound most least [] pool iterates sound = sound
  handle_all-IsSound most least (e ∷ es) pool iterates sound =
      handle_all-IsSound most least es (handle e pool) iterates
        (handle-IsSound most least e pool iterates sound)
