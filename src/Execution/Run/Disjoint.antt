-- ===== src/Execution/Run/Disjoint.antt =====
-- Transactions of which one deals with contracts at most: the storage and the registry that one
-- writes are not what the other reads.
use cytah_speed.Prelude.{
  ◌≡◌, refl, ap, ◌∙◌, Bool, true, false, ◌||◌, [], arith, get, Bool-cases, inl, inr,
}
use cytah_speed.Core.Transaction.{TxPayload, Transaction, Crypto}
use cytah_speed.State.Tree.{Account, Runtime}
use cytah_speed.State.Manager.{StateManager, account_at}
use cytah_speed.Execution.Access.{analyze_access, transactions_conflict}
use cytah_speed.Execution.Run.{
  Machine, Overlay, new_overlay, run_transfer, run_payload, execute_transaction,
}
use cytah_speed.Execution.Run.Contracts.{
  Disk, merge_contracts, write_entries, register_all, sort_entries, sort_registrations,
}
use cytah_speed.Execution.Run.Round.{
  World, WasmRuntime, machine_on, merge_accounts, merge_overlay, execute_on,
}
use cytah_speed.Execution.Run.Independence.{execute_transaction_independent}

abbrev pub is_transfer : TxPayload → Bool
is_transfer (TxPayload.transfer to amount) = true
is_transfer (TxPayload.contract_deploy wasm_code init_args) = false
is_transfer (TxPayload.contract_call address method args) = false

module _ (c : Crypto) where
  run_payload_unseen :
      (vm vm' : Machine) (tx : Transaction) (p : TxPayload) (sender : Account) (o : Overlay)
      (s : StateManager)
      → is_transfer p ≡ true
      → run_payload c vm tx p sender o s ≡ run_payload c vm' tx p sender o s
  unfolding run_payload run_transfer
  run_payload_unseen vm vm' tx (TxPayload.transfer to amount) sender o s transfer = refl
  run_payload_unseen vm vm' tx (TxPayload.contract_deploy code args) sender o s transfer =
      ground (arith, transfer)
  run_payload_unseen vm vm' tx (TxPayload.contract_call address method args) sender o s transfer =
      ground (arith, transfer)

  -- A transfer does not see the virtual machine.
  execute_transaction_unseen :
      (vm vm' : Machine) (tx : Transaction) (s : StateManager)
      → is_transfer tx.payload ≡ true
      → execute_transaction c vm tx new_overlay s ≡ execute_transaction c vm' tx new_overlay s
  unfolding execute_transaction get
  execute_transaction_unseen vm vm' tx s transfer =
      let sender = account_at tx.from s in
      ground (arith, run_payload_unseen vm vm' tx tx.payload sender new_overlay s transfer)

  abbrev WritesNoContract : Overlay → Type 0
  WritesNoContract overlay = (overlay.storage ≡ []) × (overlay.registry_updates ≡ [])

  run_payload-WritesNoContract :
      (vm : Machine) (tx : Transaction) (p : TxPayload) (sender : Account) (s : StateManager)
      → is_transfer p ≡ true
      → WritesNoContract (run_payload c vm tx p sender new_overlay s).1
  unfolding run_payload run_transfer
  run_payload-WritesNoContract vm tx (TxPayload.transfer to amount) sender s transfer = ground arith
  run_payload-WritesNoContract vm tx (TxPayload.contract_deploy code args) sender s transfer =
      ground (arith, transfer)
  run_payload-WritesNoContract vm tx (TxPayload.contract_call address method args) sender s
        transfer =
      ground (arith, transfer)

  -- A transfer leaves contracts alone.
  execute_transaction-WritesNoContract :
      (vm : Machine) (tx : Transaction) (s : StateManager)
      → is_transfer tx.payload ≡ true
      → WritesNoContract (execute_transaction c vm tx new_overlay s).1
  unfolding execute_transaction get
  execute_transaction-WritesNoContract vm tx s transfer =
      let sender = account_at tx.from s in
      let (stored, registered) = run_payload-WritesNoContract vm tx tx.payload sender s transfer in
      (ground (arith, stored), ground (arith, registered))

  merge_contracts_unchanged :
      (overlay : Overlay) (d : Disk) → WritesNoContract overlay → merge_contracts overlay d ≡ d
  unfolding merge_contracts write_entries register_all sort_entries sort_registrations
  merge_contracts_unchanged overlay d (stored, registered) = ground (arith, stored, registered)

  -- If two transactions do not conflict and one of them is a transfer, the second runs in the same
  -- way, with the same receipt and the same overlay, before and after the overlay of the first is
  -- merged.
  pub execute_on_independent :
      (rt : Runtime) (vm : WasmRuntime) (t u : Transaction) (w : World)
      → transactions_conflict (analyze_access c t) (analyze_access c u) ≡ false
      → (is_transfer t.payload || is_transfer u.payload) ≡ true
      → execute_on c vm u (merge_overlay rt (execute_on c vm t w).1 w) ≡ execute_on c vm u w
  unfolding execute_on merge_overlay
  execute_on_independent rt vm t u (s, d) apart one =
      let machine = machine_on vm d in
      let overlay = (execute_transaction c machine t new_overlay s).1 in
      let d' = merge_contracts overlay d in
      let s' = merge_accounts rt overlay s in
      let alike = execute_transaction_independent rt c machine t u s apart in
      elim (Bool-cases (is_transfer u.payload)) [
        | inl transfer ↦ execute_transaction_unseen (machine_on vm d') machine u s' transfer ∙ alike
        | inr other ↦
            let same : d' ≡ d =
              merge_contracts_unchanged overlay d
                (execute_transaction-WritesNoContract machine t s (ground (arith, other, one))) in
            ap (λ (e : Disk). execute_transaction c (machine_on vm e) u new_overlay s') same ∙ alike
      ]
