-- ===== src/Mempool/Pool/Room.antt =====
-- Which transaction makes room for a new one in the pool.
use mathlib.Core.Logic.{∥∥₁_elim}
use mathlib.Core.Bool.{Bool-set}
use mathlib.Core.List.Perm
use mathlib.Core.List.{Perm, Mem, Memᴰ}
use cytah_speed.Prelude.{
  ℕ, ◌≤◌, ◌<◌, ◌≡◌, ◌≢◌, ◌⊎◌, inl, inr, refl, sym, ap, true, none, some, [], ◌∷◌, ◌==◌, leb, ltb,
  arith, length, get, remove, contains_key, IsKeyed, Bool-cases, Option-cases,
}
use cytah_speed.Core.Transaction.{Hash, Transaction, Crypto}
use cytah_speed.Mempool.Pool.{MempoolTransaction, Pending, cheapest, make_room}

abbrev pub price : MempoolTransaction → ℕ
price t = t.transaction.gas_price

-- The map iterates over its own entries, each once.
abbrev pub IsIteration : (Pending → Pending) → Type 0
IsIteration order = (m : Pending) → Perm (order m) m

cheapest-Memᴰ : (e : Hash × MempoolTransaction) (m : Pending) → cheapest m ≡ some e → Memᴰ e m
unfolding cheapest
cheapest-Memᴰ e [] h = cc
cheapest-Memᴰ e (d ∷ m) h = elim (Option-cases (cheapest m)) [
  | inl empty ↦ Memᴰ.head (ground (arith, empty, h))
  | inr (r, found) ↦ elim (Bool-cases (leb (price d.1) (price r.1))) [
    | inl less ↦ Memᴰ.head (ground (arith, found, less, h))
    | inr more ↦ Memᴰ.tail (cheapest-Memᴰ e m (ground (arith, found, more, h)))
  ]
]

cheapest-nonempty : (d : Hash × MempoolTransaction) (m : Pending) → Memᴰ d m → cheapest m ≢ none
unfolding cheapest
cheapest-nonempty d [] found = elim found [ ]
cheapest-nonempty d (x ∷ m) found = elim (Option-cases (cheapest m)) [
  | inl empty ↦ λ h. ground (arith, empty, h)
  | inr (r, rest) ↦ λ h. ground (arith, rest, h)
]

cheapest-least :
    (e d : Hash × MempoolTransaction) (m : Pending)
    → cheapest m ≡ some e
    → Memᴰ d m
    → leb (price e.1) (price d.1) ≡ true
unfolding cheapest
cheapest-least e d [] h found = elim found [ ]
cheapest-least e d (x ∷ m) h found = elim (Option-cases (cheapest m)) [
  | inl empty ↦
      let first : x ≡ e = ground (arith, empty, h) in
      elim found [
        | Memᴰ.head here ↦ ground (
          arith,
          ap (λ (y : Hash × MempoolTransaction). price y.1) first,
          ap (λ (y : Hash × MempoolTransaction). price y.1) here,
        )
        | Memᴰ.tail there ↦ absurd (cheapest-nonempty d m there empty)
      ]
  | inr (r, rest) ↦
      let lowest : leb (price e.1) (price x.1) ≡ true = ground (arith, rest, h) in
      let lower : leb (price e.1) (price r.1) ≡ true = ground (arith, rest, h) in
      elim found [
        | Memᴰ.head here ↦
            ground (arith, lowest, ap (λ (y : Hash × MempoolTransaction). price y.1) here)
        | Memᴰ.tail there ↦ ground (arith, lower, cheapest-least r d m rest there)
      ]
]

get-Memᴰ : (k : ℕ) (t : MempoolTransaction) (m : Pending) → get k m ≡ some t → Memᴰ (k, t) m
unfolding get
get-Memᴰ k t [] h = cc
get-Memᴰ k t ((j, w) ∷ m) h = elim (Bool-cases (j == k)) [
  | inl here ↦
      let same : j ≡ k = ground arith in
      let found : w ≡ t = ground arith in Memᴰ.head (λ i. (sym same i, sym found i))
  | inr there ↦ Memᴰ.tail (get-Memᴰ k t m (ground arith))
]

-- An entry of a table without repeated keys is what its key reads.
Memᴰ-get :
    (k : ℕ) (t : MempoolTransaction) (m : Pending) → IsKeyed m → Memᴰ (k, t) m → get k m ≡ some t
unfolding get
Memᴰ-get k t [] keyed found = elim found [ ]
Memᴰ-get k t ((j, w) ∷ m) keyed (Memᴰ.head e) = ground (
  arith,
  ap (λ (x : Hash × MempoolTransaction). x.0) e,
  ap (λ (x : Hash × MempoolTransaction). x.1) e,
)
Memᴰ-get k t ((j, w) ∷ m) keyed (Memᴰ.tail found) =
    ground (arith, keyed.0, Memᴰ-get k t m keyed.1 found)

-- The entry low gave way to a transaction that pays more, and paid no more than any other.
abbrev pub GaveWay : Transaction → Pending → Pending → Hash → MempoolTransaction → Type 0
GaveWay tx before after h low =
    (get h before ≡ some low)
    × ((after ≡ remove h before)
        × ((price low < tx.gas_price)
            × ((k : Hash) (t : MempoolTransaction) → get k before ≡ some t → price low ≤ price t)))

module _ (c : Crypto) (order : Pending → Pending) where
  evicted :
      (e : Hash × MempoolTransaction) (tx : Transaction) (txs : Pending)
      → IsIteration order
      → IsKeyed txs
      → cheapest (order txs) ≡ some e
      → ltb (price e.1) tx.gas_price ≡ true
      → (low : MempoolTransaction) × GaveWay tx txs (remove e.0 txs) e.0 low
  evicted e tx txs iterates keyed h better =
      let in_txs : Mem e txs = (Perm.mem_iff (iterates txs)).0 ∣ cheapest-Memᴰ e (order txs) h ∣₁ in
      let known : contains_key e.0 txs ≡ true =
        ∥∥₁_elim in_txs (Bool-set _ _) λ m. ground (arith, Memᴰ-get e.0 e.1 txs keyed m) in
      elim (Option-cases (get e.0 txs)) [
        | inl absent ↦ absurd (ground (arith, absent, known))
        | inr (low, present) ↦
            let same : price low ≡ price e.1 =
              let paid : (price low == price e.1) ≡ true =
                ∥∥₁_elim in_txs (Bool-set _ _)
                  λ m. ground (arith, present, Memᴰ-get e.0 e.1 txs keyed m) in
              ground (arith, paid) in
            (
              low,
              (
                present,
                (
                  refl,
                  (
                    ground (arith, same, better),
                    λ k t found.
                        let least : leb (price e.1) (price t) ≡ true =
                          ∥∥₁_elim ((Perm.mem_iff (iterates txs)).1 ∣ get-Memᴰ k t txs found ∣₁)
                            (Bool-set _ _) λ m. cheapest-least e (k, t) (order txs) h m in
                        ground (arith, same, least),
                  ),
                ),
              ),
            )
      ]

  -- Room is found in a pool that is not full, or by taking out one transaction.
  pub make_room-cases :
      (max_size : ℕ) (tx : Transaction) (txs after : Pending)
      → IsIteration order
      → IsKeyed txs
      → make_room c order max_size tx txs ≡ some after
      → ((after ≡ txs) × (length txs < max_size))
        ⊎ ((h : Hash) × (low : MempoolTransaction) × GaveWay tx txs after h low)
  unfolding make_room
  make_room-cases max_size tx txs after iterates keyed e =
      elim (Bool-cases (leb max_size (length txs))) [
        | inr room ↦ inl (ground (arith, room, e))
        | inl full ↦ elim (Option-cases (cheapest (order txs))) [
          | inl empty ↦ absurd (ground (arith, full, empty, e))
          | inr (d, found) ↦ elim (Bool-cases (ltb (price d.1) tx.gas_price)) [
            | inr worse ↦ absurd (ground (arith, full, found, worse, e))
            | inl better ↦
                let same : after ≡ remove d.0 txs = ground (arith, full, found, better, e) in
                let (low, gone) = evicted d tx txs iterates keyed found better in
                inr (d.0, low, (gone.0, (same, gone.1.1)))
          ]
        ]
      ]

  -- A full pool with a transaction that pays less makes room.
  pub make_room-full :
      (max_size k : ℕ) (t : MempoolTransaction) (tx : Transaction) (txs : Pending)
      → IsIteration order
      → IsKeyed txs
      → max_size ≤ length txs
      → get k txs ≡ some t
      → price t < tx.gas_price
      → (h : Hash) × (low : MempoolTransaction) × ((make_room c order max_size tx txs
            ≡ some (remove h txs))
          × GaveWay tx txs (remove h txs) h low)
  unfolding make_room
  make_room-full max_size k t tx txs iterates keyed full known better =
      let in_order : Mem (k, t) (order txs) =
        (Perm.mem_iff (iterates txs)).1 ∣ get-Memᴰ k t txs known ∣₁ in
      elim (Option-cases (cheapest (order txs))) [
        | inl empty ↦
            absurd (
              ∥∥₁_elim in_order (λ x y. absurd x) λ m. cheapest-nonempty (k, t) (order txs) m empty)
        | inr (d, found) ↦
            let least : leb (price d.1) (price t) ≡ true =
              ∥∥₁_elim in_order (Bool-set _ _) λ m. cheapest-least d (k, t) (order txs) found m in
            let cheaper : ltb (price d.1) tx.gas_price ≡ true = ground (arith, least, better) in
            let (low, gone) = evicted d tx txs iterates keyed found cheaper in
            (d.0, low, (ground (arith, full, found, cheaper), gone))
      ]
