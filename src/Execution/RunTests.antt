-- ===== src/Execution/RunTests.antt =====
-- The theorems on the run of transactions, at concrete inputs.
use mathlib.Core.List.Perm
use mathlib.Core.List.{Perm, mem-cons_self}
use cytah_speed.Core.Block.Validity.{IsDistinct}
use cytah_speed.Execution.Schedule.{schedule_parallel_batches}
use cytah_speed.Execution.Schedule.Batches.{Batches, IsIteration}
use cytah_speed.Execution.Run.Scheduled.{scheduled_batch_in_turn}
use cytah_speed.Prelude.{
  ◌≡◌, refl, none, some, List, [], ◌∷◌, map, replicate, get, insert, be_bytes, le_bytes,
}
use cytah_speed.Samples.{sample_crypto, sample_runtime}
use cytah_speed.Core.Transaction.{
  Address, Bytes, Crypto, TxPayload, Transaction, CryptoAlgorithm, tx_hash, validate_basic,
}
use cytah_speed.State.Manager.{StateManager, account_at}
use cytah_speed.Execution.Access.{analyze_access, transactions_conflict, build_conflict_graph}
use cytah_speed.Execution.Run.{
  VmOutcome, execute_transaction, run_transfer, run_contract, run_payload,
}
use cytah_speed.Execution.Run.Contracts.{Disk, merge_contracts}
use cytah_speed.Execution.Run.Round.{
  WasmRuntime, machine_on, execute_on, merge_overlay, merge_result, merge_results, run_batch,
}
use cytah_speed.Execution.Run.Batch.{run_in_turn}

-- A signature names its signer.
abbrev signer : Bytes → Address
signer [] = 0
signer (b ∷ bs) = b

abbrev toy_crypto : Crypto
toy_crypto = record sample_crypto { recover = λ digest bytes. some (signer bytes) }

-- A virtual machine whose contracts write one entry.
abbrev toy_vm : WasmRuntime
toy_vm = record {
  init = λ entries code address caller gas writes. record {
    outcome = VmOutcome.finished;
    used = 5;
    storage = writes;
  };
  call = λ entries code address caller gas method writes. record {
    outcome = VmOutcome.finished;
    used = 5;
    storage = (7 ∷ [], 8 ∷ []) ∷ writes;
  };
}

abbrev disk : Disk
disk = record { entries = []; contracts = (9, 6 ∷ []) ∷ [] }

-- Two accounts with 1000 coins each.
abbrev rich : StateManager
rich = record {
  state_tree = record {
    root = none;
    leaves =
        (1, record { balance = 1000; nonce = 0 }) ∷ (3, record { balance = 1000; nonce = 0 }) ∷ [];
  };
  current_state_root = 0;
}

abbrev signed : Address → Address → Transaction
signed from to = record {
  from = from;
  payload = TxPayload.transfer to 300;
  nonce = 0;
  gas_limit = 10;
  gas_price = 2;
  signature = record { algorithm = CryptoAlgorithm.secp256k1; bytes = replicate 65 from };
}

-- A payment, and a call of the contract 9 by another account.
abbrev two : List Transaction
two = signed 1 2 ∷ record (signed 3 4) { payload = TxPayload.contract_call 9 (1 ∷ []) [] } ∷ []

abbrev same : Batches → Batches
same m = m

same-IsIteration : IsIteration same
same-IsIteration m = Perm.refl m

two_hashes-IsDistinct : IsDistinct (map (tx_hash toy_crypto) two)
unfolding tx_hash be_bytes le_bytes
two_hashes-IsDistinct = (refl, (refl, tt))

one_batch : schedule_parallel_batches toy_crypto same two ≡ two ∷ []
unfolding schedule_parallel_batches build_conflict_graph tx_hash be_bytes le_bytes get insert
    transactions_conflict analyze_access
one_batch = refl

-- Both succeed in turn, and the call leaves its entry on the disk.
written :
    (run_batch toy_crypto toy_vm sample_runtime two (rich, disk)).1.1.entries
    ≡ (7 ∷ [], 8 ∷ []) ∷ []
unfolding run_batch execute_on merge_results merge_result merge_overlay merge_contracts
    execute_transaction run_payload run_transfer run_contract validate_basic account_at get insert
    tx_hash be_bytes le_bytes machine_on
written = refl

scheduled_batch_in_turn_example :
    Perm
      (run_batch toy_crypto toy_vm sample_runtime two (rich, disk)).0
      (map (λ r. r.0) (run_in_turn toy_crypto toy_vm sample_runtime two (rich, disk)))
scheduled_batch_in_turn_example =
    scheduled_batch_in_turn toy_crypto toy_vm sample_runtime same two two (rich, disk)
      same-IsIteration two_hashes-IsDistinct (rw one_batch mem-cons_self) ((refl, tt), (tt, tt))
