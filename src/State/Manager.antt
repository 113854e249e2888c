-- ===== src/State/Manager.antt =====
-- The state manager (src/state/state_manager.rs). A method that fails returns its error beside
-- the state at that point.
pub mod Supply
pub mod Transfer
pub mod Mint
pub mod Rebuild
use cytah_speed.Prelude.{
  ℕ, ◌+◌, ◌-◌, ◌*◌, ◌/◌, ◌^◌, min, Bool, true, false, not, Option, none, some, List, [], ◌∷◌, ◌==◌,
  ltb, if◌then◌else◌, unwrap_or, is_some, Table, saturating_add, saturating_sub, saturating_mul,
  wrapping_add,
}
use cytah_speed.Core.Transaction.{Address, Hash, TxPayload, Transaction}
use cytah_speed.Consensus.Reward.{cts_max_supply, cts_genesis_allocation, cts_mining_supply}
use cytah_speed.State.Tree.{
  Account, Runtime, SparseMerkleTree, empty_tree, calculate_root, get_account, update_account,
}

-- [1u8; 20] and [255u8; 20]
abbrev pub genesis_wallet : Address
genesis_wallet = (256 ^ 20 - 1) / 255

abbrev pub emission_state_account : Address
emission_state_account = 256 ^ 20 - 1

pub record StateManager : Type 0 where
  pub state_tree : SparseMerkleTree
  pub current_state_root : Hash

pub data StateError : Type 0 where
  zero_amount : StateError
  invalid_nonce : (expected got : ℕ) → StateError
  insufficient_balance insufficient_fee_balance beyond_max_supply : StateError

pub data StateResult : Type 0 where
  ok : StateResult
  err : StateError → StateResult

abbrev pub Outcome : Type 0
Outcome = StateResult × StateManager

abbrev pub blank_account : Account
blank_account = record { balance = 0; nonce = 0 }

-- `get_account(..).cloned().unwrap_or(Account::new(0, 0))`
unfoldable pub account_at : Address → StateManager → Account
unfolding get_account
account_at a s = unwrap_or (get_account a s.state_tree) blank_account

-- `self.current_state_root = self.state_tree.calculate_root()`
unfoldable pub refresh_root : StateManager → StateManager
refresh_root s = record s { current_state_root = calculate_root s.state_tree }

-- `get_balance`
unfoldable pub get_balance : Address → StateManager → ℕ
unfolding get_account
get_balance a s = elim (get_account a s.state_tree) [ none ↦ 0 | some acc ↦ acc.balance ]

-- `get_emitted_supply`
unfoldable pub get_emitted_supply : StateManager → ℕ
unfolding get_account
get_emitted_supply s = elim (get_account emission_state_account s.state_tree) [
  | none ↦ 0
  | some acc ↦ acc.balance
]

-- The closure of `get_total_supply`, which skips the emission tracker.
unfoldable pub add_holding : ℕ → Address × Account → ℕ
add_holding total (a, acc) =
    if a == emission_state_account then total else saturating_add total acc.balance

unfoldable pub sum_holdings : ℕ → Table Account → ℕ
unfolding add_holding
sum_holdings total [] = total
sum_holdings total (e ∷ m) = sum_holdings (add_holding total e) m

unfoldable pub count_active : ℕ → Table Account → ℕ
count_active count [] = count
count_active count ((a, acc) ∷ m) = count_active (if ltb 0 acc.balance then count + 1 else count) m

-- The `?` operator on a result without a value.
unfoldable pub and_then : Outcome → (StateManager → Outcome) → Outcome
and_then (StateResult.ok, s) k = k s
and_then (StateResult.err e, s) k = (StateResult.err e, s)

module _ (rt : Runtime) where
  -- `self.state_tree.update_account(..)`
  unfoldable pub store : Address → Account → StateManager → StateManager
  unfolding update_account
  store a acc s = record s { state_tree = update_account rt a acc s.state_tree }

  -- `StateManager::new`
  unfoldable pub new : StateManager
  new =
      let s : StateManager = record { state_tree = empty_tree; current_state_root = 0 } in
      refresh_root
        (store emission_state_account blank_account (store genesis_wallet blank_account s))

  -- `if get_account(&a).is_none() { update_account(a, Account::new(0, 0)) }`
  unfoldable pub ensure_account : Address → StateManager → StateManager
  ensure_account a s = if is_some (get_account a s.state_tree) then s else store a blank_account s

  unfoldable pub initialize_tokenomics : StateManager → StateManager
  initialize_tokenomics s =
      let s₁ = ensure_account genesis_wallet s in
      let genesis = account_at genesis_wallet s₁ in
      let s₂ =
        if genesis.balance == 0
        then store genesis_wallet
            (record { balance = cts_genesis_allocation; nonce = genesis.nonce }) s₁
        else s₁ in
      refresh_root (ensure_account emission_state_account s₂)

  unfoldable pub add_emitted_supply : ℕ → StateManager → StateManager
  add_emitted_supply amount s =
      let acc = account_at emission_state_account s in
      let remaining = saturating_sub cts_mining_supply acc.balance in
      if amount == 0
      then s
      else if remaining == 0
      then s
      else refresh_root (
          store emission_state_account
            (record {
              balance = saturating_add acc.balance (min amount remaining);
              nonce = acc.nonce;
            })
            s)

  unfoldable pub get_total_supply : StateManager → ℕ
  unfolding sum_holdings
  get_total_supply s = sum_holdings 0 (rt.order s.state_tree.leaves)

  unfoldable pub get_active_account_count : StateManager → ℕ
  unfolding count_active
  get_active_account_count s = count_active 0 (rt.order s.state_tree.leaves)

  -- The writes of `apply_transfer`, after its tests.
  unfoldable pub move_funds : Address → Address → ℕ → ℕ → StateManager → StateManager
  move_funds from to amount total_cost s =
      let sender = account_at from s in
      let s₁ =
        store from
          (record { balance = sender.balance - total_cost; nonce = wrapping_add sender.nonce 1 })
          s in
      let receiver = account_at to s₁ in
      refresh_root (
        store to (record { balance = wrapping_add receiver.balance amount; nonce = receiver.nonce })
          s₁)

  unfoldable pub apply_transfer : Address → Address → ℕ → ℕ → ℕ → StateManager → Outcome
  apply_transfer from to amount nonce fee s =
      let sender = account_at from s in
      let total_cost = saturating_add amount fee in
      if amount == 0
      then (StateResult.err StateError.zero_amount, s)
      else if not (sender.nonce == nonce)
      then (StateResult.err (StateError.invalid_nonce sender.nonce nonce), s)
      else if ltb sender.balance total_cost
      then (StateResult.err StateError.insufficient_balance, s)
      else (StateResult.ok, move_funds from to amount total_cost s)

  -- The match of `apply_transaction` on the payload.
  unfoldable pub apply_payload : Transaction → ℕ → TxPayload → StateManager → Outcome
  apply_payload tx fee (TxPayload.transfer to amount) s =
      apply_transfer tx.from to amount tx.nonce fee s
  apply_payload tx fee (TxPayload.contract_deploy code args) s = (StateResult.ok, s)
  apply_payload tx fee (TxPayload.contract_call address method args) s = (StateResult.ok, s)

  unfoldable pub apply_transaction : Transaction → StateManager → Outcome
  apply_transaction tx s = apply_payload tx (saturating_mul tx.gas_limit tx.gas_price) tx.payload s

  unfoldable pub deduct_fee : Address → ℕ → StateManager → Outcome
  deduct_fee from fee s =
      let account = account_at from s in
      if fee == 0
      then (StateResult.ok, s)
      else if ltb account.balance fee
      then (StateResult.err StateError.insufficient_fee_balance, s)
      else (
        StateResult.ok,
        refresh_root
            (store from (record { balance = account.balance - fee; nonce = account.nonce }) s),
      )

  unfoldable pub credit_account : Address → ℕ → StateManager → Outcome
  credit_account to amount s =
      let account = account_at to s in
      if amount == 0
      then (StateResult.ok, s)
      else if ltb cts_max_supply (saturating_add (get_total_supply s) amount)
      then (StateResult.err StateError.beyond_max_supply, s)
      else (
        StateResult.ok,
        refresh_root (
            store to
              (record { balance = wrapping_add account.balance amount; nonce = account.nonce }) s),
      )
