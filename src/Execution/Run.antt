-- ===== src/Execution/Run.antt =====
-- The run of one transaction over an overlay (`execute_transaction` and the overlays in
-- src/execution/parallel_executor.rs). The virtual machine is a parameter; how it and the
-- registry of contracts stand on the disk is said in Round and Contracts.
pub mod Contracts
pub mod Round
pub mod Disjoint
pub mod Footprint
pub mod Independence
pub mod Transfers
pub mod Batch
pub mod Scheduled
use cytah_speed.Prelude.{
  ℕ, Bool, true, false, not, Option, none, some, List, [], ◌∷◌, ◌++◌, ◌==◌, leb, ltb, if◌then◌else◌,
  unwrap_or, map, Table, get, insert, saturating_add, saturating_sub, saturating_mul, wrapping_add,
}
use cytah_speed.Core.Transaction.{
  Address, Hash, Bytes, TxPayload, Transaction, Crypto, TxError, TxResult, tx_hash, validate_basic,
}
use cytah_speed.State.Tree.{Account, Runtime}
use cytah_speed.State.Manager.{StateManager, account_at, blank_account, store, refresh_root}
use cytah_speed.Execution.Access.{deploy_address}

-- The entries of contract storage that a run has written.
abbrev pub ContractWrites : Type 0
ContractWrites = List (Bytes × Bytes)

pub record Overlay : Type 0 where
  pub modified_accounts : Table Account
  pub storage : ContractWrites
  pub registry_updates : List (Address × Bytes)

-- `Overlay::new`
abbrev pub new_overlay : Overlay
new_overlay = record { modified_accounts = []; storage = []; registry_updates = [] }

pub data ExecError : Type 0 where
  invalid : TxError → ExecError
  invalid_nonce : (expected got : ℕ) → ExecError
  insufficient_fee_balance insufficient_balance : ExecError
  not_instantiated init_failed contract_not_found call_failed : ExecError

pub record TransactionReceipt : Type 0 where
  pub hash : Hash
  pub success : Bool
  pub gas_used : ℕ
  pub error : Option ExecError

-- How a run of the virtual machine ends, the gas it has used, and what it leaves in storage.
pub data VmOutcome : Type 0 where
  broken trapped finished : VmOutcome

pub record VmRun : Type 0 where
  pub outcome : VmOutcome
  pub used : ℕ
  pub storage : ContractWrites

-- The virtual machine over the storage and the registry of contracts as they are: code, address,
-- caller, gas limit and the method to call.
pub record Machine : Type 0 where
  pub run_init : Bytes → Address → Address → ℕ → ContractWrites → VmRun
  pub run_call : Bytes → Address → Address → ℕ → Bytes → ContractWrites → VmRun
  pub get_contract : Address → Option Bytes

abbrev pub is_broken : VmOutcome → Bool
is_broken VmOutcome.broken = true
is_broken VmOutcome.trapped = false
is_broken VmOutcome.finished = false

abbrev pub is_finished : VmOutcome → Bool
is_finished VmOutcome.broken = false
is_finished VmOutcome.trapped = false
is_finished VmOutcome.finished = true

unfoldable pub read_account : Address → Overlay → StateManager → Account
read_account a overlay base = unwrap_or (get a overlay.modified_accounts) (account_at a base)

unfoldable pub write_account : Address → Account → Overlay → Overlay
write_account a acc overlay = record overlay {
  modified_accounts = insert a acc overlay.modified_accounts;
}

-- The closure `charge_fee`.
unfoldable pub charge_fee : ℕ → ℕ → Account → Option Account
charge_fee gas_price used acc =
    let fee = saturating_mul used gas_price in
    if ltb acc.balance fee
    then none
    else some (record acc { balance = saturating_sub acc.balance fee })

abbrev pub Outcome : Type 0
Outcome = TransactionReceipt × Overlay

module _ (c : Crypto) (vm : Machine) where
  abbrev pub failed : Transaction → ExecError → TransactionReceipt
  failed tx e = record { hash = tx_hash c tx; success = false; gas_used = 0; error = some e }

  abbrev pub succeeded : Transaction → ℕ → TransactionReceipt
  succeeded tx used = record { hash = tx_hash c tx; success = true; gas_used = used; error = none }

  -- The branch of `TxPayload::Transfer`.
  unfoldable pub run_transfer :
      Transaction → Address → ℕ → Account → Overlay → StateManager → Outcome
  unfolding read_account write_account charge_fee
  run_transfer tx to amount sender overlay base =
      let total = saturating_add amount (saturating_mul tx.gas_limit tx.gas_price) in
      let debited : Account = record {
        balance = saturating_sub sender.balance amount;
        nonce = wrapping_add sender.nonce 1;
      } in
      let overlay₁ = write_account tx.from debited overlay in
      let receiver = read_account to overlay₁ base in
      let credited : Account = record receiver {
        balance = saturating_add receiver.balance amount;
      } in
      let overlay₂ = write_account to credited overlay₁ in
      if ltb sender.balance total
      then (failed tx ExecError.insufficient_balance, overlay)
      else elim (charge_fee tx.gas_price tx.gas_limit debited) [
        | none ↦ (failed tx ExecError.insufficient_fee_balance, overlay₂)
        | some paid ↦ (succeeded tx tx.gas_limit, write_account tx.from paid overlay₂)
      ]

  -- The branch of `TxPayload::ContractDeploy`.
  unfoldable pub run_deploy : Transaction → Bytes → Account → Overlay → Outcome
  unfolding write_account charge_fee
  run_deploy tx wasm_code sender overlay =
      let address = deploy_address c wasm_code in
      let run = vm.run_init wasm_code address tx.from tx.gas_limit overlay.storage in
      let touched = record overlay { storage = run.storage } in
      if is_broken run.outcome
      then (failed tx ExecError.not_instantiated, touched)
      else elim (charge_fee tx.gas_price run.used sender) [
        | none ↦ (failed tx ExecError.insufficient_fee_balance, touched)
        | some paid ↦
            let written =
              write_account tx.from (record paid { nonce = wrapping_add paid.nonce 1 }) touched in
            if is_finished run.outcome
            then (
              succeeded tx run.used,
              write_account address blank_account (record written {
                registry_updates = written.registry_updates ++ (address, wasm_code) ∷ [];
              }),
            )
            else (failed tx ExecError.init_failed, written)
      ]

  -- The branch of `TxPayload::ContractCall`.
  unfoldable pub run_contract : Transaction → Address → Bytes → Account → Overlay → Outcome
  unfolding write_account charge_fee
  run_contract tx contract_address method sender overlay = elim (vm.get_contract contract_address) [
    | none ↦ (failed tx ExecError.contract_not_found, overlay)
    | some bytecode ↦
        let run =
          vm.run_call bytecode contract_address tx.from tx.gas_limit method overlay.storage in
        let touched = record overlay { storage = run.storage } in
        if is_broken run.outcome
        then (failed tx ExecError.not_instantiated, touched)
        else elim (charge_fee tx.gas_price run.used sender) [
          | none ↦ (failed tx ExecError.insufficient_fee_balance, touched)
          | some paid ↦
              let written =
                write_account tx.from (record paid { nonce = wrapping_add paid.nonce 1 }) touched in
              if is_finished run.outcome
              then (succeeded tx run.used, written)
              else (failed tx ExecError.call_failed, written)
        ]
  ]

  unfoldable pub run_payload : Transaction → TxPayload → Account → Overlay → StateManager → Outcome
  run_payload tx (TxPayload.transfer to amount) sender overlay base =
      run_transfer tx to amount sender overlay base
  run_payload tx (TxPayload.contract_deploy wasm_code init_args) sender overlay base =
      run_deploy tx wasm_code sender overlay
  run_payload tx (TxPayload.contract_call contract_address method args) sender overlay base =
      run_contract tx contract_address method sender overlay

  unfoldable pub execute_transaction : Transaction → Overlay → StateManager → Outcome
  unfolding read_account
  execute_transaction tx overlay base = elim (validate_basic c tx) [
    | TxResult.err e ↦ (failed tx (ExecError.invalid e), overlay)
    | TxResult.ok ↦
        let sender = read_account tx.from overlay base in
        if not (sender.nonce == tx.nonce)
        then (failed tx (ExecError.invalid_nonce sender.nonce tx.nonce), overlay)
        else run_payload tx tx.payload sender overlay base
  ]
