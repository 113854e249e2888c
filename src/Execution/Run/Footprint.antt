-- ===== src/Execution/Run/Footprint.antt =====
-- A run stays within the access set of its transaction.
use cytah_speed.Prelude.{
  ℕ, ◌≡◌, refl, ap, true, false, not, Bool, ◌||◌, none, List, [], ◌∷◌, ◌++◌, ◌==◌, arith,
  if◌then◌else◌, any, get, insert, if_ind, Bool-cases, inl, inr,
}
use cytah_speed.Core.Transaction.{
  Address, Bytes, TxPayload, TxResult, Transaction, Crypto, validate_basic,
}
use cytah_speed.State.Tree.{Account}
use cytah_speed.State.Manager.{StateManager, account_at}
use cytah_speed.Execution.Access.{
  StateKey, TxAccessSet, has_key, add_key, same_key, payload_access, analyze_access, deploy_address,
}
use cytah_speed.Execution.Run.{
  Outcome, Machine, new_overlay, run_transfer, run_deploy, run_contract, run_payload,
  execute_transaction, ExecError, failed,
}

any-append :
    {A : Type 0} (p : A → Bool) (xs ys : List A) → any p (xs ++ ys) ≡ (any p xs || any p ys)
any-append p [] ys = refl
any-append p (x ∷ xs) ys = ground (arith, any-append p xs ys)

-- Whether an account stands in a set of keys, after a key is added.
has_key-add_key :
    (a : Address) (k : StateKey) (keys : List StateKey)
    → has_key (StateKey.account a) (add_key k keys)
      ≡ (has_key (StateKey.account a) keys || same_key (StateKey.account a) k)
has_key-add_key a (StateKey.account b) keys = elim (Bool-cases (a == b)) [
  | inl same ↦
      let e : a ≡ b = ground (arith, same) in
      ground (
        arith,
        same,
        ap (λ (x : Address). has_key (StateKey.account x) keys) e,
        any-append (same_key (StateKey.account a)) keys (StateKey.account b ∷ []),
      )
  | inr other ↦
      ground
        (arith, other, any-append (same_key (StateKey.account a)) keys (StateKey.account b ∷ []))
]
has_key-add_key a (StateKey.contract_storage b k) keys =
    ground
      (arith, any-append (same_key (StateKey.account a)) keys (StateKey.contract_storage b k ∷ []))
has_key-add_key a (StateKey.contract_registry b) keys =
    ground
      (arith, any-append (same_key (StateKey.account a)) keys (StateKey.contract_registry b ∷ []))

module _ (c : Crypto) (vm : Machine) where
  -- An overlay without an account.
  abbrev pub Lacks : Address → Outcome → Type 0
  Lacks a (receipt, overlay) = get a overlay.modified_accounts ≡ none

  run_transfer-Lacks :
      (a : Address) (tx : Transaction) (to : Address) (amount : ℕ) (sender : Account)
      (base : StateManager)
      → (tx.from == a) ≡ false
      → (to == a) ≡ false
      → Lacks a (run_transfer c vm tx to amount sender new_overlay base)
  unfolding run_transfer get insert
  run_transfer-Lacks a tx to amount sender base other_from other_to =
      ground (arith, other_from, other_to)

  run_deploy-Lacks :
      (a : Address) (tx : Transaction) (wasm_code : Bytes) (sender : Account)
      → (tx.from == a) ≡ false
      → (deploy_address c wasm_code == a) ≡ false
      → Lacks a (run_deploy c vm tx wasm_code sender new_overlay)
  unfolding run_deploy get insert
  run_deploy-Lacks a tx wasm_code sender other_from other_address =
      ground (arith, other_from, other_address)

  run_contract-Lacks :
      (a : Address) (tx : Transaction) (address : Address) (method : Bytes) (sender : Account)
      → (tx.from == a) ≡ false
      → Lacks a (run_contract c vm tx address method sender new_overlay)
  unfolding run_contract get insert
  run_contract-Lacks a tx address method sender other_from = ground (arith, other_from)

  -- The set that `analyze_access` starts with.
  abbrev pub own_access : Transaction → TxAccessSet
  own_access tx = record {
    reads = StateKey.account tx.from ∷ [];
    writes = StateKey.account tx.from ∷ [];
  }

  run_payload-Lacks :
      (a : Address) (tx : Transaction) (p : TxPayload) (sender : Account) (base : StateManager)
      → has_key (StateKey.account a) (payload_access c p (own_access tx)).writes ≡ false
      → Lacks a (run_payload c vm tx p sender new_overlay base)
  unfolding run_payload payload_access
  run_payload-Lacks a tx (TxPayload.transfer to amount) sender base free =
      let added = has_key-add_key a (StateKey.account to) (StateKey.account tx.from ∷ []) in
      run_transfer-Lacks a tx to amount sender base (ground (arith, added, free))
        (ground (arith, added, free))
  run_payload-Lacks a tx (TxPayload.contract_deploy code args) sender base free =
      let own = StateKey.account tx.from ∷ [] in
      let address = deploy_address c code in
      let once = add_key (StateKey.account address) own in
      let twice = add_key (StateKey.contract_storage address []) once in
      let added₁ = has_key-add_key a (StateKey.account address) own in
      let added₂ = has_key-add_key a (StateKey.contract_storage address []) once in
      let added₃ = has_key-add_key a (StateKey.contract_registry address) twice in
      run_deploy-Lacks a tx code sender (ground (arith, added₁, added₂, added₃, free))
        (ground (arith, added₁, added₂, added₃, free))
  run_payload-Lacks a tx (TxPayload.contract_call address method args) sender base free =
      let own = StateKey.account tx.from ∷ [] in
      let once = add_key (StateKey.account address) own in
      let added₁ = has_key-add_key a (StateKey.account address) own in
      let added₂ = has_key-add_key a (StateKey.contract_storage address []) once in
      run_contract-Lacks a tx address method sender (ground (arith, added₁, added₂, free))

  -- An account outside the write set is not in the overlay of a run.
  pub execute_transaction-Lacks :
      (a : Address) (tx : Transaction) (base : StateManager)
      → has_key (StateKey.account a) (analyze_access c tx).writes ≡ false
      → Lacks a (execute_transaction c vm tx new_overlay base)
  unfolding execute_transaction analyze_access get
  execute_transaction-Lacks a tx base free =
      elim (validate_basic c tx)
        as (λ r. Lacks a (elim r [
          | TxResult.err e ↦ (failed c vm tx (ExecError.invalid e), new_overlay)
          | TxResult.ok ↦
              if not ((account_at tx.from base).nonce == tx.nonce)
              then (
                failed c vm tx (ExecError.invalid_nonce (account_at tx.from base).nonce tx.nonce),
                new_overlay,
              )
              else run_payload c vm tx tx.payload (account_at tx.from base) new_overlay base
        ])) [
          | TxResult.err e ↦ refl
          | TxResult.ok ↦
              if_ind (λ (o : Outcome). get a o.1.modified_accounts ≡ none)
                (not ((account_at tx.from base).nonce == tx.nonce)) (λ _. refl)
                (λ _. run_payload-Lacks a tx tx.payload (account_at tx.from base) base free)
        ]

  own_read :
      (tx : Transaction) (p : TxPayload)
      → has_key (StateKey.account tx.from) (payload_access c p (own_access tx)).reads ≡ true
  unfolding payload_access
  own_read tx (TxPayload.transfer to amount) =
      ground (arith, has_key-add_key tx.from (StateKey.account to) (StateKey.account tx.from ∷ []))
  own_read tx (TxPayload.contract_deploy code args) = ground arith
  own_read tx (TxPayload.contract_call address method args) =
      let own = StateKey.account tx.from ∷ [] in
      let once = add_key (StateKey.account address) own in
      let twice = add_key (StateKey.contract_storage address []) once in
      let added₁ = has_key-add_key tx.from (StateKey.account address) own in
      let added₂ = has_key-add_key tx.from (StateKey.contract_storage address []) once in
      let added₃ = has_key-add_key tx.from (StateKey.contract_registry address) twice in
      ground (arith, added₁, added₂, added₃)

  -- Accounts that the read set names have the same content.
  abbrev pub Agree : Transaction → StateManager → StateManager → Type 0
  Agree tx s t =
      (a : Address)
      → has_key (StateKey.account a) (analyze_access c tx).reads ≡ true
      → account_at a s ≡ account_at a t

  run_payload-Agree :
      (tx : Transaction) (p : TxPayload) (sender : Account) (s t : StateManager)
      → ((a : Address)
          → has_key (StateKey.account a) (payload_access c p (own_access tx)).reads ≡ true
          → account_at a s ≡ account_at a t)
      → run_payload c vm tx p sender new_overlay s ≡ run_payload c vm tx p sender new_overlay t
  unfolding run_payload run_transfer payload_access get insert
  run_payload-Agree tx (TxPayload.transfer to amount) sender s t agree =
      let read = agree to (
        ground (arith, has_key-add_key to (StateKey.account to) (StateKey.account tx.from ∷ []))) in
      ground (arith, read)
  run_payload-Agree tx (TxPayload.contract_deploy code args) sender s t agree = refl
  run_payload-Agree tx (TxPayload.contract_call address method args) sender s t agree = refl

  -- A run reads no account outside the read set.
  pub execute_transaction-Agree :
      (tx : Transaction) (s t : StateManager)
      → Agree tx s t
      → execute_transaction c vm tx new_overlay s ≡ execute_transaction c vm tx new_overlay t
  unfolding execute_transaction analyze_access get
  execute_transaction-Agree tx s t agree =
      let own : account_at tx.from s ≡ account_at tx.from t =
        agree tx.from (own_read tx tx.payload) in
      let rest = run_payload-Agree tx tx.payload (account_at tx.from t) s t agree in
      ground (arith, own, rest)
