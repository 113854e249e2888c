-- ===== src/Security/PreValidation.antt =====
-- The checks of transactions without the state (src/security/pre_validation.rs). The size that
-- `size_of_val` gives for a transaction is the same for all of them, and a parameter.
pub mod Accepted
use cytah_speed.Prelude.{
  ℕ, ◌+◌, ◌*◌, ◌%◌, ◌^◌, min, Bool, true, false, not, ◌||◌, ◌&&◌, Option, none, some, List, [], ◌∷◌,
  ◌++◌, ◌==◌, ltb, if◌then◌else◌, length, contains,
}
use cytah_speed.Core.Transaction.{Address, Hash, Bytes, Crypto, Transaction, TxPayload, tx_hash}
use cytah_speed.Dag.Index.{set_insert, set_remove}

-- The texts of the errors are left out.
pub data ValidationError : Type 0 where
  invalid_format invalid_signature gas_limit_exceeded invalid_gas_price : ValidationError
  duplicate_transaction blacklisted_address : ValidationError

pub record TransactionPreValidator : Type 0 where
  pub max_gas_limit : ℕ
  pub min_gas_price : ℕ
  pub max_tx_size : ℕ
  pub blacklisted_addresses : List Address
  pub known_tx_hashes : List Hash

-- `TransactionPreValidator::new`
unfoldable pub new_validator : ℕ → ℕ → ℕ → TransactionPreValidator
new_validator max_gas_limit min_gas_price max_tx_size = record {
  max_gas_limit = max_gas_limit;
  min_gas_price = min_gas_price;
  max_tx_size = max_tx_size;
  blacklisted_addresses = [];
  known_tx_hashes = [];
}

abbrev pub is_zero_transfer : TxPayload → Bool
is_zero_transfer (TxPayload.transfer to amount) = amount == 0
is_zero_transfer (TxPayload.contract_deploy wasm_code init_args) = false
is_zero_transfer (TxPayload.contract_call contract_address method args) = false

abbrev pub has_no_bytes : Bytes → Bool
has_no_bytes [] = true
has_no_bytes (b ∷ bs) = false

-- The last match of `validate_format`.
abbrev pub is_bad_payload : Address → TxPayload → Bool
is_bad_payload from (TxPayload.transfer to amount) = to == 0 || from == to
is_bad_payload from (TxPayload.contract_deploy wasm_code init_args) = has_no_bytes wasm_code
is_bad_payload from (TxPayload.contract_call contract_address method args) =
    contract_address == 0 || has_no_bytes method

unfoldable pub validate_format : ℕ → TransactionPreValidator → Transaction → Option ValidationError
validate_format tx_size v tx =
    if ltb v.max_tx_size tx_size
    then some ValidationError.invalid_format
    else if is_zero_transfer tx.payload
    then some ValidationError.invalid_format
    else if tx.gas_limit == 0
    then some ValidationError.invalid_format
    else if tx.from == 0
    then some ValidationError.invalid_format
    else if is_bad_payload tx.from tx.payload
    then some ValidationError.invalid_format
    else none

unfoldable pub validate_signature : Transaction → Option ValidationError
validate_signature tx =
    if not (length tx.signature.bytes == 65) then some ValidationError.invalid_signature else none

unfoldable pub validate_gas : TransactionPreValidator → Transaction → Option ValidationError
validate_gas v tx =
    if ltb v.max_gas_limit tx.gas_limit
    then some ValidationError.gas_limit_exceeded
    else if ltb tx.gas_price v.min_gas_price
    then some ValidationError.invalid_gas_price
    else if ltb ((v.min_gas_price * 1000) % 2 ^ 64) tx.gas_price
    then some ValidationError.invalid_gas_price
    else none

-- The second address of a payload.
abbrev pub is_target_listed : List Address → TxPayload → Bool
is_target_listed addresses (TxPayload.transfer to amount) = contains addresses to
is_target_listed addresses (TxPayload.contract_call contract_address method args) =
    contains addresses contract_address
is_target_listed addresses (TxPayload.contract_deploy wasm_code init_args) = false

unfoldable pub validate_addresses : TransactionPreValidator → Transaction → Option ValidationError
validate_addresses v tx =
    if contains v.blacklisted_addresses tx.from
    then some ValidationError.blacklisted_address
    else if is_target_listed v.blacklisted_addresses tx.payload
    then some ValidationError.blacklisted_address
    else none

unfoldable pub check_duplicate :
    Crypto → TransactionPreValidator → Transaction → Option ValidationError
check_duplicate crypto v tx =
    if contains v.known_tx_hashes (tx_hash crypto tx)
    then some ValidationError.duplicate_transaction
    else none

-- `errors.push(e)` for a check that fails.
unfoldable pub push_error : Option ValidationError → List ValidationError → List ValidationError
push_error none errors = errors
push_error (some e) errors = errors ++ e ∷ []

module _ (crypto : Crypto) (tx_size : ℕ) (v : TransactionPreValidator) where
  -- The errors of `pre_validate_transaction`; the transaction is valid if there are none.
  unfoldable pub pre_validate_transaction : Transaction → List ValidationError
  pre_validate_transaction tx = push_error (check_duplicate crypto v tx) (
      push_error (validate_addresses v tx) (
        push_error (validate_gas v tx)
          (push_error (validate_signature tx) (push_error (validate_format tx_size v tx) []))))

  -- One `InvalidFormat` for each error of a transaction.
  unfoldable pub report : List ValidationError → List ValidationError → List ValidationError
  report [] all_errors = all_errors
  report (e ∷ es) all_errors = report es (all_errors ++ ValidationError.invalid_format ∷ [])

  -- The loop of `validate_block_transactions`.
  unfoldable pub check_transactions :
      List Transaction → List Hash → List ValidationError → List ValidationError
  check_transactions [] seen all_errors = all_errors
  check_transactions (tx ∷ txs) seen all_errors =
      let reported = report (pre_validate_transaction tx) all_errors in
      check_transactions txs (set_insert (tx_hash crypto tx) seen) (
        if contains seen (tx_hash crypto tx)
        then reported ++ ValidationError.invalid_format ∷ []
        else reported)

  -- The errors of `validate_block_transactions`.
  unfoldable pub validate_block_transactions : List Transaction → List ValidationError
  validate_block_transactions txs = check_transactions txs [] []

unfoldable pub add_known_transaction : Hash → TransactionPreValidator → TransactionPreValidator
add_known_transaction h v = record v { known_tx_hashes = set_insert h v.known_tx_hashes }

unfoldable pub remove_known_transaction : Hash → TransactionPreValidator → TransactionPreValidator
remove_known_transaction h v = record v { known_tx_hashes = set_remove h v.known_tx_hashes }

unfoldable pub clear_known_transactions : TransactionPreValidator → TransactionPreValidator
clear_known_transactions v = record v { known_tx_hashes = [] }

unfoldable pub blacklist_address : Address → TransactionPreValidator → TransactionPreValidator
blacklist_address a v = record v { blacklisted_addresses = set_insert a v.blacklisted_addresses }

unfoldable pub unblacklist_address : Address → TransactionPreValidator → TransactionPreValidator
unblacklist_address a v = record v { blacklisted_addresses = set_remove a v.blacklisted_addresses }

-- `estimate_gas_usage`; the lengths fit into memory, so that the sums do not wrap around.
unfoldable pub estimate_gas_usage : Transaction → ℕ
estimate_gas_usage tx = min (payload_gas tx.payload) tx.gas_limit
  where
    payload_gas : TxPayload → ℕ
    payload_gas (TxPayload.transfer to amount) = 21000
    payload_gas (TxPayload.contract_deploy wasm_code init_args) =
        21000 + length wasm_code * 16 + length init_args * 4
    payload_gas (TxPayload.contract_call contract_address method args) = 21000 + length args * 4
