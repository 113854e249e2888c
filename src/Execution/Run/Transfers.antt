-- ===== src/Execution/Run/Transfers.antt =====
-- What a transfer does to the accounts of its overlay.
use cytah_speed.Prelude.{
  ℕ, ◌+◌, ◌-◌, ◌*◌, ◌<◌, ◌≡◌, ◌≢◌, refl, sym, ap, ◌∙◌, subst, true, some, arith, get, insert,
  u64_max, saturating_add, wrapping_add,
}
use cytah_speed.Core.Transaction.{Address, TxPayload, Transaction, Crypto}
use cytah_speed.State.Tree.{Account}
use cytah_speed.State.Manager.{StateManager, account_at}
use cytah_speed.Execution.Run.{
  Machine, Outcome, new_overlay, run_transfer, run_payload, execute_transaction,
}

module _ (c : Crypto) (vm : Machine) where
  success_runs :
      (tx : Transaction) (base : StateManager)
      → (execute_transaction c vm tx new_overlay base).0.success ≡ true
      → execute_transaction c vm tx new_overlay base
        ≡ run_payload c vm tx tx.payload (account_at tx.from base) new_overlay base
  unfolding execute_transaction get
  success_runs tx base success = ground (arith, success)

  success_transfers :
      (tx : Transaction) (to : Address) (amount : ℕ) (base : StateManager)
      → tx.payload ≡ TxPayload.transfer to amount
      → (execute_transaction c vm tx new_overlay base).0.success ≡ true
      → execute_transaction c vm tx new_overlay base
        ≡ run_transfer c vm tx to amount (account_at tx.from base) new_overlay base
  unfolding run_payload
  success_transfers tx to amount base payload success =
      success_runs tx base success
      ∙ ap (λ (p : TxPayload). run_payload c vm tx p (account_at tx.from base) new_overlay base)
          payload

  -- The accounts of two parties after a transfer.
  abbrev pub Pays : Transaction → Address → ℕ → StateManager → Outcome → Type 0
  Pays tx to amount base result =
      (sender : Account) × (receiver : Account) × ((get tx.from result.1.modified_accounts
          ≡ some sender)
        × ((get to result.1.modified_accounts ≡ some receiver)
            × ((sender.balance + (amount + tx.gas_limit * tx.gas_price)
                  ≡ (account_at tx.from base).balance)
                × ((sender.nonce ≡ wrapping_add (account_at tx.from base).nonce 1)
                    × ((receiver.balance ≡ saturating_add (account_at to base).balance amount)
                        × (receiver.nonce ≡ (account_at to base).nonce))))))

  run_transfer-Pays :
      (tx : Transaction) (to : Address) (amount : ℕ) (base : StateManager)
      → tx.from ≢ to
      → (account_at tx.from base).balance < u64_max
      → (run_transfer c vm tx to amount (account_at tx.from base) new_overlay base).0.success ≡ true
      → Pays tx to amount base
          (run_transfer c vm tx to amount (account_at tx.from base) new_overlay base)
  unfolding run_transfer get insert
  run_transfer-Pays tx to amount base other small success = (
    record {
      balance = (account_at tx.from base).balance - (amount + tx.gas_limit * tx.gas_price);
      nonce = wrapping_add (account_at tx.from base).nonce 1;
    },
    record {
      balance = saturating_add (account_at to base).balance amount;
      nonce = (account_at to base).nonce;
    },
    (
      ground (arith, success),
      (ground (arith, success), (ground (arith, success), (refl, (refl, refl)))),
    ),
  )

  run_transfer_self :
      (tx : Transaction) (amount : ℕ) (base : StateManager)
      → (account_at tx.from base).balance < u64_max
      → (run_transfer c vm tx tx.from amount (account_at tx.from base) new_overlay base).0.success
        ≡ true
      → (after : Account) × ((get tx.from
              (run_transfer c vm tx tx.from amount
                (account_at tx.from base)
                new_overlay
                base).1.modified_accounts
            ≡ some after)
          × (after.balance + (amount + tx.gas_limit * tx.gas_price)
              ≡ (account_at tx.from base).balance))
  unfolding run_transfer get insert
  run_transfer_self tx amount base small success = (
    record {
      balance = (account_at tx.from base).balance - (amount + tx.gas_limit * tx.gas_price);
      nonce = wrapping_add (account_at tx.from base).nonce 1;
    },
    (ground (arith, success), ground (arith, success)),
  )

  -- A transfer to another account that succeeds, from a balance below 2^64 - 1, takes amount and
  -- fee from the sender and advances its nonce, and adds the amount (up to 2^64 - 1) to the
  -- receiver, whose nonce stays.
  pub execute_transaction-Pays :
      (tx : Transaction) (to : Address) (amount : ℕ) (base : StateManager)
      → tx.payload ≡ TxPayload.transfer to amount
      → tx.from ≢ to
      → (account_at tx.from base).balance < u64_max
      → (execute_transaction c vm tx new_overlay base).0.success ≡ true
      → Pays tx to amount base (execute_transaction c vm tx new_overlay base)
  execute_transaction-Pays tx to amount base payload other small success =
      let same = success_transfers tx to amount base payload success in
      subst (Pays tx to amount base) (sym same) (
        run_transfer-Pays tx to amount base other small
          (sym (ap (λ (r : Outcome). r.0.success) same) ∙ success))

  -- A transfer of an account to itself that succeeds, from a balance below 2^64 - 1, costs not
  -- only the fee: the amount is gone as well.
  pub execute_self_transfer_loses :
      (tx : Transaction) (amount : ℕ) (base : StateManager)
      → tx.payload ≡ TxPayload.transfer tx.from amount
      → (account_at tx.from base).balance < u64_max
      → (execute_transaction c vm tx new_overlay base).0.success ≡ true
      → (after : Account) × ((get tx.from
              (execute_transaction c vm tx new_overlay base).1.modified_accounts
            ≡ some after)
          × (after.balance + (amount + tx.gas_limit * tx.gas_price)
              ≡ (account_at tx.from base).balance))
  execute_self_transfer_loses tx amount base payload small success =
      let same = success_transfers tx tx.from amount base payload success in
      subst
        (λ (r : Outcome).
          (after : Account) × ((get tx.from r.1.modified_accounts ≡ some after)
            × (after.balance + (amount + tx.gas_limit * tx.gas_price)
                ≡ (account_at tx.from base).balance)))
        (sym same)
        (run_transfer_self tx amount base small
          (sym (ap (λ (r : Outcome). r.0.success) same) ∙ success))
