-- ===== src/Execution/Run/Round.antt =====
-- One round of the loop over the batches: the runs of a batch and the merge of their overlays
-- (`merge_overlay` and `execute_block_transactions_parallel` in
-- src/execution/parallel_executor.rs).
use cytah_speed.Prelude.{ℕ, List, [], ◌∷◌, leb, if◌then◌else◌, map, Table}
use cytah_speed.Core.Transaction.{Address, Bytes, Transaction, Crypto}
use cytah_speed.State.Tree.{Account, Runtime}
use cytah_speed.State.Manager.{StateManager, store, refresh_root}
use cytah_speed.Execution.Run.{
  Overlay, Outcome, TransactionReceipt, Machine, ContractWrites, VmRun, new_overlay,
  execute_transaction,
}
use cytah_speed.Execution.Run.Contracts.{Disk, get_contract, merge_contracts}

-- What the merge writes to: the state, and the storage and the registry of contracts.
abbrev pub World : Type 0
World = StateManager × Disk

-- The virtual machine, which reads the entries of contract storage that a run has not written.
pub record WasmRuntime : Type 0 where
  pub init : ContractWrites → Bytes → Address → Address → ℕ → ContractWrites → VmRun
  pub call : ContractWrites → Bytes → Address → Address → ℕ → Bytes → ContractWrites → VmRun

unfoldable pub machine_on : WasmRuntime → Disk → Machine
unfolding get_contract
machine_on vm d = record {
  run_init = vm.init d.entries;
  run_call = vm.call d.entries;
  get_contract = λ address. get_contract address d;
}

-- The accounts of an overlay in ascending order.
unfoldable pub insert_account : Address × Account → Table Account → Table Account
insert_account e [] = e ∷ []
insert_account e (d ∷ m) =
    let rest = insert_account e m in if leb e.0 d.0 then e ∷ d ∷ m else d ∷ rest

unfoldable pub sort_accounts : Table Account → Table Account
unfolding insert_account
sort_accounts [] = []
sort_accounts (e ∷ m) = insert_account e (sort_accounts m)

module _ (rt : Runtime) where
  unfoldable pub store_all : Table Account → StateManager → StateManager
  store_all [] s = s
  store_all (e ∷ m) s = store_all m (store rt e.0 e.1 s)

  -- The first part of `merge_overlay`: the accounts and the root.
  unfoldable pub merge_accounts : Overlay → StateManager → StateManager
  unfolding store_all sort_accounts
  merge_accounts overlay s = refresh_root (store_all (sort_accounts overlay.modified_accounts) s)

  unfoldable pub merge_overlay : Overlay → World → World
  unfolding merge_accounts merge_contracts
  merge_overlay overlay (s, d) = (merge_accounts overlay s, merge_contracts overlay d)

  -- The body of the loop over the sorted results of a batch.
  unfoldable pub merge_result : TransactionReceipt × Overlay → World → World
  unfolding merge_overlay
  merge_result (receipt, overlay) w = if receipt.success then merge_overlay overlay w else w

  unfoldable pub merge_results : List Outcome → World → World
  unfolding merge_result
  merge_results [] w = w
  merge_results (r ∷ rs) w = merge_results rs (merge_result r w)

-- `sorted.sort_by`, by the hash of the transaction.
unfoldable pub insert_result : Outcome → List Outcome → List Outcome
insert_result r [] = r ∷ []
insert_result r (q ∷ qs) =
    let rest = insert_result r qs in if leb r.0.hash q.0.hash then r ∷ q ∷ qs else q ∷ rest

unfoldable pub sort_results : List Outcome → List Outcome
unfolding insert_result
sort_results [] = []
sort_results (r ∷ rs) = insert_result r (sort_results rs)

abbrev pub receipts_of : List Outcome → List TransactionReceipt
receipts_of [] = []
receipts_of (r ∷ rs) = r.0 ∷ receipts_of rs

-- A transaction with a new overlay, on the state, the storage and the registry as they are.
unfoldable pub execute_on : Crypto → WasmRuntime → Transaction → World → Outcome
unfolding machine_on
execute_on c vm tx (s, d) = execute_transaction c (machine_on vm d) tx new_overlay s

-- One round of the loop of `execute_block_transactions_parallel`: every transaction of the batch
-- runs on the state before the batch.
unfoldable pub run_batch :
    Crypto → WasmRuntime → Runtime → List Transaction → World → List TransactionReceipt × World
unfolding sort_results merge_results
run_batch c vm rt txs w =
    let sorted = sort_results (map (λ tx. execute_on c vm tx w) txs) in
    (receipts_of sorted, merge_results rt sorted w)
