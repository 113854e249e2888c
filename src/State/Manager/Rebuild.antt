-- ===== src/State/Manager/Rebuild.antt =====
-- `rebuild_from_blocks`, which a reorganisation uses to replay a history.
use cytah_speed.Prelude.{
  ℕ, ◌≡◌, ◌≢◌, refl, ◌⊎◌, inl, inr, Bool, true, false, ◌||◌, List, [], ◌∷◌, arith, any, get,
  saturating_mul,
}
use cytah_speed.Core.Transaction.{Address, TxPayload, Transaction}
use cytah_speed.Core.Block.{Block}
use cytah_speed.State.Tree.{Runtime, empty_tree}
use cytah_speed.State.Manager.{
  StateManager, StateResult, Outcome, and_then, blank_account, account_at, refresh_root,
  apply_payload, apply_transaction,
}
use cytah_speed.State.Manager.Transfer.{apply_transfer_iff}

module _ (rt : Runtime) where
  -- `for tx in ... { self.apply_transaction(tx)?; }`
  unfoldable pub apply_transactions : List Transaction → StateManager → Outcome
  unfolding and_then
  apply_transactions [] s = (StateResult.ok, s)
  apply_transactions (tx ∷ txs) s = and_then (apply_transaction rt tx s) (apply_transactions txs)

  unfoldable pub apply_blocks : List Block → StateManager → Outcome
  unfolding and_then
  apply_blocks [] s = (StateResult.ok, s)
  apply_blocks (b ∷ bs) s = and_then (apply_transactions b.transactions s) (apply_blocks bs)

  unfoldable pub rebuild_from_blocks : List Block → StateManager → Outcome
  rebuild_from_blocks blocks s =
      apply_blocks blocks (refresh_root (record s { state_tree = empty_tree }))

-- Whether a transaction is a transfer, and whether a history holds one.
abbrev pub is_transfer : TxPayload → Bool
is_transfer (TxPayload.transfer to amount) = true
is_transfer (TxPayload.contract_deploy code args) = false
is_transfer (TxPayload.contract_call address method args) = false

abbrev pub has_transfer : List Block → Bool
has_transfer [] = false
has_transfer (b ∷ bs) = any (λ tx. is_transfer tx.payload) b.transactions || has_transfer bs

module _ (rt : Runtime) where
  -- On a state where no account holds anything, a transaction fails if it is a transfer and
  -- changes nothing otherwise.
  abbrev IsBroke : StateManager → Type 0
  IsBroke s = (a : Address) → account_at a s ≡ blank_account

  broke_payload :
      (tx : Transaction) (fee : ℕ) (p : TxPayload) (s : StateManager)
      → IsBroke s
      → is_transfer p ≡ true × ((apply_payload rt tx fee p s).0 ≢ StateResult.ok)
        ⊎ is_transfer p ≡ false × (apply_payload rt tx fee p s ≡ (StateResult.ok, s))
  unfolding apply_payload
  broke_payload tx fee (TxPayload.transfer to amount) s broke = inl (
    refl,
    λ h.
        let covered = (apply_transfer_iff rt tx.from to amount tx.nonce fee s).0.0 h in
        ground (arith, covered, broke tx.from),
  )
  broke_payload tx fee (TxPayload.contract_deploy code args) s broke = inr (refl, refl)
  broke_payload tx fee (TxPayload.contract_call address method args) s broke = inr (refl, refl)

  broke_transactions :
      (txs : List Transaction) (s : StateManager)
      → IsBroke s
      → any (λ tx. is_transfer tx.payload) txs ≡ true
          × ((apply_transactions rt txs s).0 ≢ StateResult.ok)
        ⊎ any (λ tx. is_transfer tx.payload) txs ≡ false
          × (apply_transactions rt txs s ≡ (StateResult.ok, s))
  unfolding apply_transactions apply_transaction
  broke_transactions [] s broke = inr (refl, refl)
  broke_transactions (tx ∷ txs) s broke = ground (
    arith,
    broke_payload tx (saturating_mul tx.gas_limit tx.gas_price) tx.payload s broke,
    broke_transactions txs s broke,
  )

  broke_blocks :
      (bs : List Block) (s : StateManager)
      → IsBroke s
      → has_transfer bs ≡ true × ((apply_blocks rt bs s).0 ≢ StateResult.ok)
        ⊎ has_transfer bs ≡ false × (apply_blocks rt bs s ≡ (StateResult.ok, s))
  unfolding apply_blocks
  broke_blocks [] s broke = inr (refl, refl)
  broke_blocks (b ∷ bs) s broke =
      ground (arith, broke_transactions b.transactions s broke, broke_blocks bs s broke)

  empty_IsBroke : (s : StateManager) → IsBroke (refresh_root (record s { state_tree = empty_tree }))
  unfolding refresh_root account_at get
  empty_IsBroke s a = refl

  -- Replaying a history starts from no accounts at all, without the genesis allocation and
  -- without rewards: it fails exactly if some block holds a transfer.
  pub rebuild_from_blocks_iff :
      (blocks : List Block) (s : StateManager)
      → ((rebuild_from_blocks rt blocks s).0 ≡ StateResult.ok → has_transfer blocks ≡ false)
        × (has_transfer blocks ≡ false → (rebuild_from_blocks rt blocks s).0 ≡ StateResult.ok)
  unfolding rebuild_from_blocks
  rebuild_from_blocks_iff blocks s =
      let start = refresh_root (record s { state_tree = empty_tree }) in
      let cases = broke_blocks blocks start (empty_IsBroke s) in
      (λ h. ground (arith, cases), λ h. ground (arith, cases))
