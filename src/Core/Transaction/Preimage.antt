-- ===== src/Core/Transaction/Preimage.antt =====
-- What the digest of a transaction commits to.
use cytah_speed.Prelude.{
  ℕ, ◌<◌, ◌^◌, ◌≡◌, sym, ◌∙◌, ◌++◌, length, arith, le_bytes, be_bytes, length-append,
  length-le_bytes, length-be_bytes, le_bytes-injective, be_bytes-injective, append-cancel,
  append-cancel_right, cons-injective,
}
use cytah_speed.Core.Transaction.{Bytes, TxPayload, Transaction, Crypto, payload_bytes, hash_input}

-- The fields fit the widths of their types.
abbrev pub PayloadFits : TxPayload → Type 0
PayloadFits (TxPayload.transfer to amount) = (to < 256 ^ 20) × (amount < 256 ^ 8)
PayloadFits (TxPayload.contract_deploy wasm_code init_args) = Unit
PayloadFits (TxPayload.contract_call contract_address method args) = contract_address < 256 ^ 20

pub record Fits (tx : Transaction) : Type 0 where
  pub from : tx.from < 256 ^ 20
  pub payload : PayloadFits tx.payload
  pub nonce : tx.nonce < 256 ^ 8
  pub gas_limit : tx.gas_limit < 256 ^ 8
  pub gas_price : tx.gas_price < 256 ^ 8

-- A digest has 32 bytes.
abbrev pub DigestsFit : Crypto → Type 0
DigestsFit c = (b : Bytes) → c.sha256 b < 256 ^ 32

-- Equal payloads, but for code and arguments with equal digests.
abbrev pub SamePayload : Crypto → TxPayload → TxPayload → Type 0
SamePayload c (TxPayload.transfer to amount) (TxPayload.transfer to' amount') =
    (to ≡ to') × (amount ≡ amount')
SamePayload c (TxPayload.contract_deploy code args) (TxPayload.contract_deploy code' args') =
    (c.sha256 code ≡ c.sha256 code') × (c.sha256 args ≡ c.sha256 args')
SamePayload c (TxPayload.contract_call a m args) (TxPayload.contract_call a' m' args') =
    (a ≡ a') × (m ≡ m') × (c.sha256 args ≡ c.sha256 args')
SamePayload c _ _ = ⊥

length_be : (n x y : ℕ) → length (be_bytes n x) ≡ length (be_bytes n y)
length_be n x y = omega (arith, length-be_bytes n x, length-be_bytes n y)

length_le : (n x y : ℕ) → length (le_bytes n x) ≡ length (le_bytes n y)
length_le n x y = omega (arith, length-le_bytes n x, length-le_bytes n y)

-- Two fixed-width fields, one behind the other.
split_be :
    (n x y : ℕ) {r s : Bytes}
    → x < 256 ^ n
    → y < 256 ^ n
    → be_bytes n x ++ r ≡ be_bytes n y ++ s
    → (x ≡ y) × (r ≡ s)
split_be n x y hx hy e =
    let (front, back) = append-cancel (be_bytes n x) (be_bytes n y) e (length_be n x y) in
    (be_bytes-injective n x y hx hy front, back)

split_le :
    (n x y : ℕ) {r s : Bytes}
    → x < 256 ^ n
    → y < 256 ^ n
    → le_bytes n x ++ r ≡ le_bytes n y ++ s
    → (x ≡ y) × (r ≡ s)
split_le n x y hx hy e =
    let (front, back) = append-cancel (le_bytes n x) (le_bytes n y) e (length_le n x y) in
    (le_bytes-injective n x y hx hy front, back)

module _ (c : Crypto) (digests : DigestsFit c) where
  payload_bytes-injective :
      (p q : TxPayload)
      → PayloadFits p
      → PayloadFits q
      → payload_bytes c p ≡ payload_bytes c q
      → SamePayload c p q
  unfolding payload_bytes
  payload_bytes-injective (TxPayload.transfer to x) (TxPayload.transfer to' x') hp hq e =
      let (same_to, rest) = split_be 20 to to' hp.0 hq.0 (cons-injective e).1 in
      (same_to, le_bytes-injective 8 x x' hp.1 hq.1 rest)
  payload_bytes-injective (TxPayload.contract_deploy w i) (TxPayload.contract_deploy w' i') hp hq
        e =
      let (code, rest) =
        split_be 32 (c.sha256 w) (c.sha256 w') (digests w) (digests w') (cons-injective e).1 in
      (code, be_bytes-injective 32 (c.sha256 i) (c.sha256 i') (digests i) (digests i') rest)
  payload_bytes-injective (TxPayload.contract_call a m x) (TxPayload.contract_call a' m' x') hp hq
        e =
      let (same_address, rest) = split_be 20 a a' hp hq (cons-injective e).1 in
      let (same_method, args) =
        append-cancel_right m m' rest (length_be 32 (c.sha256 x) (c.sha256 x')) in
      (
        same_address,
        same_method,
        be_bytes-injective 32 (c.sha256 x) (c.sha256 x') (digests x) (digests x') args,
      )
  payload_bytes-injective (TxPayload.transfer _ _) (TxPayload.contract_deploy _ _) hp hq e =
      absurd (omega (arith, (cons-injective e).0))
  payload_bytes-injective (TxPayload.transfer _ _) (TxPayload.contract_call _ _ _) hp hq e =
      absurd (omega (arith, (cons-injective e).0))
  payload_bytes-injective (TxPayload.contract_deploy _ _) (TxPayload.transfer _ _) hp hq e =
      absurd (omega (arith, (cons-injective e).0))
  payload_bytes-injective (TxPayload.contract_deploy _ _) (TxPayload.contract_call _ _ _) hp hq e =
      absurd (omega (arith, (cons-injective e).0))
  payload_bytes-injective (TxPayload.contract_call _ _ _) (TxPayload.transfer _ _) hp hq e =
      absurd (omega (arith, (cons-injective e).0))
  payload_bytes-injective (TxPayload.contract_call _ _ _) (TxPayload.contract_deploy _ _) hp hq e =
      absurd (omega (arith, (cons-injective e).0))

  abbrev tail_bytes : Transaction → Bytes
  tail_bytes tx = le_bytes 8 tx.nonce ++ (le_bytes 8 tx.gas_limit ++ le_bytes 8 tx.gas_price)

  length-tail_bytes : (tx : Transaction) → length (tail_bytes tx) ≡ 24
  length-tail_bytes tx = omega (
    arith,
    length-append (le_bytes 8 tx.nonce) (le_bytes 8 tx.gas_limit ++ le_bytes 8 tx.gas_price),
    length-append (le_bytes 8 tx.gas_limit) (le_bytes 8 tx.gas_price),
    length-le_bytes 8 tx.nonce,
    length-le_bytes 8 tx.gas_limit,
    length-le_bytes 8 tx.gas_price,
  )

  -- For transactions whose fields fit their types, equal digest inputs give equal senders,
  -- nonces, gas limits and gas prices, and payloads that are equal up to the digests of contract
  -- code and arguments: no bytes of one field can be read as another's. The signature is not
  -- part of the input.
  pub hash_input-commits :
      (t u : Transaction)
      → Fits t
      → Fits u
      → hash_input c t ≡ hash_input c u
      → (t.from ≡ u.from)
        × (t.nonce ≡ u.nonce)
        × (t.gas_limit ≡ u.gas_limit)
        × (t.gas_price ≡ u.gas_price)
        × SamePayload c t.payload u.payload
  unfolding hash_input
  hash_input-commits t u ht hu e =
      let (from, rest) = split_be 20 t.from u.from ht.from hu.from e in
      let (payload, tail) =
        append-cancel_right (payload_bytes c t.payload) (payload_bytes c u.payload) rest
          (length-tail_bytes t ∙ sym (length-tail_bytes u)) in
      let (nonce, gas) = split_le 8 t.nonce u.nonce ht.nonce hu.nonce tail in
      let (limit, price) = split_le 8 t.gas_limit u.gas_limit ht.gas_limit hu.gas_limit gas in
      (
        from,
        nonce,
        limit,
        le_bytes-injective 8 t.gas_price u.gas_price ht.gas_price hu.gas_price price,
        payload_bytes-injective t.payload u.payload ht.payload hu.payload payload,
      )
