-- ===== src/State/Manager/Transfer.antt =====
-- What a transfer does: it conserves balances up to the fee, touches two accounts, and uses up
-- its nonce.
use cytah_speed.Prelude.{
  ℕ, ◌+◌, ◌-◌, ◌*◌, ◌≤◌, ◌<◌, ◌≡◌, ◌≢◌, ◌↔◌, ap, ◌∙◌, arith, ◌==◌, if◌then◌else◌, u64_max,
  saturating_add, saturating_mul, wrapping_add,
}
use cytah_speed.Core.Transaction.{Address, TxPayload, Transaction}
use cytah_speed.State.Tree.{Account, Runtime}
use cytah_speed.State.Manager.{
  StateManager, StateResult, blank_account, StateError, account_at, store, move_funds,
  apply_transfer, apply_payload, apply_transaction,
}
use cytah_speed.State.Manager.Supply.{
  all_balances, account_at-store, account_at-refresh_root, weigh-refresh_root, balance-le-all,
  all_balances-store, any_balance,
}

module _ (rt : Runtime) where
  -- The state between the two writes.
  abbrev debited : Address → ℕ → StateManager → StateManager
  debited from cost s =
      let sender = account_at from s in
      store rt from
        (record { balance = sender.balance - cost; nonce = wrapping_add sender.nonce 1 }) s

  move_funds-conserves :
      (from to : Address) (amount cost : ℕ) (s : StateManager)
      → amount ≤ cost
      → cost ≤ (account_at from s).balance
      → all_balances s ≤ u64_max
      → all_balances (move_funds rt from to amount cost s) + cost ≡ all_balances s + amount
  unfolding move_funds
  move_funds-conserves from to amount cost s h k total =
      let s₁ = debited from cost s in
      let receiver = account_at to s₁ in
      let paid : Account = record {
        balance = wrapping_add receiver.balance amount;
        nonce = receiver.nonce;
      } in
      omega (
        arith,
        weigh-refresh_root rt any_balance (store rt to paid s₁),
        all_balances-store rt to paid s₁,
        balance-le-all rt to s₁,
        all_balances-store rt from
            (record {
              balance = (account_at from s).balance - cost;
              nonce = wrapping_add (account_at from s).nonce 1;
            })
            s,
      )

  -- The account of any address after the two writes.
  pub account_at-move_funds :
      (j from to : Address) (amount cost : ℕ) (s : StateManager)
      → let receiver = account_at to (debited from cost s) in
        account_at j (move_funds rt from to amount cost s) ≡ (
          if to == j
          then record { balance = wrapping_add receiver.balance amount; nonce = receiver.nonce }
          else account_at j (debited from cost s))
  unfolding move_funds
  account_at-move_funds j from to amount cost s =
      account_at-refresh_root rt j _ ∙ account_at-store rt j to _ (debited from cost s)

  apply_transfer-ok :
      (from to : Address) (amount nonce fee : ℕ) (s s' : StateManager)
      → apply_transfer rt from to amount nonce fee s ≡ (StateResult.ok, s')
      → (1 ≤ amount)
        × ((account_at from s).nonce ≡ nonce)
        × (saturating_add amount fee ≤ (account_at from s).balance)
        × (s' ≡ move_funds rt from to amount (saturating_add amount fee) s)
  unfolding apply_transfer
  apply_transfer-ok from to amount nonce fee s s' h = ground arith

  -- While all balances together stay below 2^64 - 1, a transfer that succeeds takes exactly
  -- gas_limit * gas_price (as a product that cannot overflow) out of the sum of all balances,
  -- also when sender and receiver are one account.
  pub apply_transaction_conserves :
      (tx : Transaction) (to : Address) (amount : ℕ) (s s' : StateManager)
      → tx.payload ≡ TxPayload.transfer to amount
      → all_balances s < u64_max
      → apply_transaction rt tx s ≡ (StateResult.ok, s')
      → all_balances s' + tx.gas_limit * tx.gas_price ≡ all_balances s
  unfolding apply_transaction apply_payload
  apply_transaction_conserves tx to amount s s' payload total h =
      let fee = saturating_mul tx.gas_limit tx.gas_price in
      let (positive, same_nonce, covered, moved) =
        apply_transfer-ok tx.from to amount tx.nonce fee s s' (rw payload at h) in
      let exact : amount + fee ≤ (account_at tx.from s).balance =
        omega (arith, balance-le-all rt tx.from s) in
      let balances =
        move_funds-conserves tx.from to amount (saturating_add amount fee) s
          (omega (arith, balance-le-all rt tx.from s)) covered (omega arith) in
      rw moved (omega (arith, balances, balance-le-all rt tx.from s))

  -- A transfer succeeds exactly if its amount is positive, its nonce is the sender's, and the
  -- sender's balance covers amount and fee (added with saturation); if it does not succeed, the
  -- state is as before.
  pub apply_transfer_iff :
      (from to : Address) (amount nonce fee : ℕ) (s : StateManager)
      → ((apply_transfer rt from to amount nonce fee s).0 ≡ StateResult.ok ↔ (
          (1 ≤ amount)
          × ((account_at from s).nonce ≡ nonce)
          × (saturating_add amount fee ≤ (account_at from s).balance)))
        × ((apply_transfer rt from to amount nonce fee s).0 ≢ StateResult.ok
            → (apply_transfer rt from to amount nonce fee s).1 ≡ s)
  unfolding apply_transfer
  apply_transfer_iff from to amount nonce fee s =
      ((λ h. ground arith, λ h. ground arith), λ h. ground arith)

  two_balances :
      (a b : Address) (s : StateManager)
      → a ≢ b
      → (account_at a s).balance + (account_at b s).balance ≤ all_balances s
  two_balances a b s ne =
      let kept : account_at b (store rt a blank_account s) ≡ account_at b s =
        ground (arith, account_at-store rt b a blank_account s) in
      omega (
        arith,
        all_balances-store rt a blank_account s,
        balance-le-all rt b (store rt a blank_account s),
        ap (λ (r : Account). r.balance) kept,
      )

  -- While all balances together are below 2^64 - 1, and so is the nonce: a transfer between two
  -- different accounts that succeeds takes amount and fee from the sender and advances its nonce,
  -- adds the amount to the receiver and keeps its nonce, and leaves every third account as it
  -- was.
  pub apply_transfer_effects :
      (from to : Address) (amount nonce fee : ℕ) (s s' : StateManager)
      → from ≢ to
      → all_balances s < u64_max
      → nonce < u64_max
      → apply_transfer rt from to amount nonce fee s ≡ (StateResult.ok, s')
      → (account_at from s'
          ≡ record { balance = (account_at from s).balance - (amount + fee); nonce = nonce + 1 })
        × (account_at to s' ≡ record {
          balance = (account_at to s).balance + amount;
          nonce = (account_at to s).nonce;
        })
        × ((j : Address) → j ≢ from → j ≢ to → account_at j s' ≡ account_at j s)
  apply_transfer_effects from to amount nonce fee s s' ne total small h =
      let cost = saturating_add amount fee in
      let (positive, same_nonce, covered, moved) =
        apply_transfer-ok from to amount nonce fee s s' h in
      let read = λ (j : Address). account_at-move_funds j from to amount cost s in
      let debit = λ (j : Address).
        account_at-store rt j from
          (record {
            balance = (account_at from s).balance - cost;
            nonce = wrapping_add (account_at from s).nonce 1;
          })
          s in
      rw moved (
        ground (arith, read from, debit from, debit to, balance-le-all rt from s),
        ground (
          arith,
          read to,
          debit from,
          debit to,
          balance-le-all rt from s,
          balance-le-all rt to s,
          two_balances from to s ne,
        ),
        λ j nf nt. ground (arith, read j, debit j),
      )

  nonce-move_funds :
      (from to : Address) (amount cost : ℕ) (s : StateManager)
      → (account_at from (move_funds rt from to amount cost s)).nonce
        ≡ wrapping_add (account_at from s).nonce 1
  nonce-move_funds from to amount cost s = ground (
    arith,
    account_at-move_funds from from to amount cost s,
    account_at-store rt from from
        (record {
          balance = (account_at from s).balance - cost;
          nonce = wrapping_add (account_at from s).nonce 1;
        })
        s,
    account_at-store rt to from
        (record {
          balance = (account_at from s).balance - cost;
          nonce = wrapping_add (account_at from s).nonce 1;
        })
        s,
  )

  apply_transfer-replay :
      (from to : Address) (amount nonce fee : ℕ) (s s' : StateManager)
      → nonce < u64_max
      → apply_transfer rt from to amount nonce fee s ≡ (StateResult.ok, s')
      → apply_transfer rt from to amount nonce fee s'
        ≡ (StateResult.err (StateError.invalid_nonce (nonce + 1) nonce), s')
  apply_transfer-replay from to amount nonce fee s s' small h =
      let (positive, same_nonce, covered, moved) =
        apply_transfer-ok from to amount nonce fee s s' h in
      let after : (account_at from s').nonce ≡ nonce + 1 =
        ap (λ (r : StateManager). (account_at from r).nonce) moved
        ∙ nonce-move_funds from to amount (saturating_add amount fee) s
        ∙ omega (arith, same_nonce) in
      refused s' after positive
    where
      refused :
          (r : StateManager)
          → (account_at from r).nonce ≡ nonce + 1
          → 1 ≤ amount
          → apply_transfer rt from to amount nonce fee r
            ≡ (StateResult.err (StateError.invalid_nonce (nonce + 1) nonce), r)
      refused r after positive = unfold apply_transfer in ground arith

  -- A transfer that has succeeded, with a nonce below 2^64 - 1, cannot be applied again: its nonce is used up, and the second
  -- attempt reports the next nonce and changes nothing.
  pub apply_transaction_replay :
      (tx : Transaction) (to : Address) (amount : ℕ) (s s' : StateManager)
      → tx.payload ≡ TxPayload.transfer to amount
      → tx.nonce < u64_max
      → apply_transaction rt tx s ≡ (StateResult.ok, s')
      → apply_transaction rt tx s'
        ≡ (StateResult.err (StateError.invalid_nonce (tx.nonce + 1) tx.nonce), s')
  unfolding apply_transaction apply_payload
  apply_transaction_replay tx to amount s s' payload small h =
      let fee = saturating_mul tx.gas_limit tx.gas_price in
      rw payload (apply_transfer-replay tx.from to amount tx.nonce fee s s' small (rw payload at h))
