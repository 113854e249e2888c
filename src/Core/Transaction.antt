-- ===== src/Core/Transaction.antt =====
-- Transactions (src/core/transaction.rs). An address ([u8; 20]) and a hash ([u8; 32]) are the
-- numbers that their bytes write, most significant byte first; a byte string is a list of
-- numbers. SHA-256 and the recovery of a public key come from other crates and are parameters.
pub mod Preimage
use cytah_speed.Prelude.{
  ℕ, ◌≡◌, Bool, true, false, not, Option, none, some, List, [], ◌∷◌, ◌++◌, ◌==◌, if◌then◌else◌,
  length, le_bytes, be_bytes,
}

abbrev pub Address : Type 0
Address = ℕ

abbrev pub Hash : Type 0
Hash = ℕ

abbrev pub Bytes : Type 0
Bytes = List ℕ

pub data TxPayload : Type 0 where
  transfer : (to : Address) (amount : ℕ) → TxPayload
  contract_deploy : (wasm_code init_args : Bytes) → TxPayload
  contract_call : (contract_address : Address) (method args : Bytes) → TxPayload

pub data CryptoAlgorithm : Type 0 where
  secp256k1 schnorr post_quantum : CryptoAlgorithm

pub record Signature : Type 0 where
  pub algorithm : CryptoAlgorithm
  pub bytes : Bytes

pub record Transaction : Type 0 where
  pub from : Address
  pub payload : TxPayload
  pub nonce : ℕ
  pub gas_limit : ℕ
  pub gas_price : ℕ
  pub signature : Signature

-- `Signature::empty`
abbrev pub empty_signature : Signature
empty_signature = record { algorithm = CryptoAlgorithm.secp256k1; bytes = [] }

unfoldable pub new_transfer : Address → Address → ℕ → ℕ → ℕ → ℕ → Transaction
new_transfer from to amount nonce gas_limit gas_price = record {
  from = from;
  payload = TxPayload.transfer to amount;
  nonce = nonce;
  gas_limit = gas_limit;
  gas_price = gas_price;
  signature = empty_signature;
}

pub data TxError : Type 0 where
  zero_gas_limit zero_gas_price zero_amount : TxError
  unsupported_algorithm invalid_signature_length recovery_failed address_mismatch : TxError

-- What the sha2 and secp256k1 crates provide: the digest of a byte string, and the address of
-- the key that a recoverable signature of a digest yields, if it yields one.
pub record Crypto : Type 0 where
  pub sha256 : Bytes → Hash
  pub recover : Hash → Bytes → Option Address

-- The bytes that `hash` feeds to the digest for the payload.
unfoldable pub payload_bytes : Crypto → TxPayload → Bytes
payload_bytes c (TxPayload.transfer to amount) = 0 ∷ (be_bytes 20 to ++ le_bytes 8 amount)
payload_bytes c (TxPayload.contract_deploy wasm_code init_args) =
    1 ∷ (be_bytes 32 (c.sha256 wasm_code) ++ be_bytes 32 (c.sha256 init_args))
payload_bytes c (TxPayload.contract_call contract_address method args) =
    2 ∷ (be_bytes 20 contract_address ++ (method ++ be_bytes 32 (c.sha256 args)))

unfoldable pub hash_input : Crypto → Transaction → Bytes
unfolding payload_bytes
hash_input c tx =
    be_bytes 20 tx.from
    ++ (payload_bytes c tx.payload
        ++ (le_bytes 8 tx.nonce ++ (le_bytes 8 tx.gas_limit ++ le_bytes 8 tx.gas_price)))

-- `Transaction::hash`
unfoldable pub tx_hash : Crypto → Transaction → Hash
unfolding hash_input
tx_hash c tx = c.sha256 (hash_input c tx)

abbrev pub is_secp256k1 : CryptoAlgorithm → Bool
is_secp256k1 CryptoAlgorithm.secp256k1 = true
is_secp256k1 CryptoAlgorithm.schnorr = false
is_secp256k1 CryptoAlgorithm.post_quantum = false

pub data TxResult : Type 0 where
  ok : TxResult
  err : TxError → TxResult

-- `verify_signature` and the comparison of the recovered address, at the end of `validate_basic`.
unfoldable pub verify_signature : Crypto → Transaction → TxResult
verify_signature c tx =
    if not (is_secp256k1 tx.signature.algorithm)
    then TxResult.err TxError.unsupported_algorithm
    else if not (length tx.signature.bytes == 65)
    then TxResult.err TxError.invalid_signature_length
    else elim (c.recover (tx_hash c tx) tx.signature.bytes) [
      | none ↦ TxResult.err TxError.recovery_failed
      | some address ↦
          if address == tx.from then TxResult.ok else TxResult.err TxError.address_mismatch
    ]

-- The amount test of `validate_basic`, which looks at transfers only.
abbrev pub has_zero_amount : TxPayload → Bool
has_zero_amount (TxPayload.transfer to amount) = amount == 0
has_zero_amount (TxPayload.contract_deploy wasm_code init_args) = false
has_zero_amount (TxPayload.contract_call contract_address method args) = false

-- `Transaction::validate_basic`
unfoldable pub validate_basic : Crypto → Transaction → TxResult
unfolding verify_signature
validate_basic c tx =
    if tx.gas_limit == 0
    then TxResult.err TxError.zero_gas_limit
    else if tx.gas_price == 0
    then TxResult.err TxError.zero_gas_price
    else if has_zero_amount tx.payload
    then TxResult.err TxError.zero_amount
    else verify_signature c tx
