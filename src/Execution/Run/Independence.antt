-- ===== src/Execution/Run/Independence.antt =====
-- Transactions that do not conflict do not see each other.
use cytah_speed.Prelude.{
  ◌≡◌, refl, ap, ◌∙◌, true, false, none, List, [], ◌∷◌, ◌==◌, arith, get, Table, Bool-cases, inl,
  inr,
}
use cytah_speed.Core.Transaction.{Address, Transaction, Crypto}
use cytah_speed.State.Tree.{Account, Runtime}
use cytah_speed.State.Manager.{StateManager, account_at, store}
use cytah_speed.State.Manager.Supply.{account_at-store, account_at-refresh_root}
use cytah_speed.Execution.Access.{
  StateKey, has_key, is_disjoint, analyze_access, transactions_conflict,
}
use cytah_speed.Execution.Run.{Overlay, Machine, new_overlay, execute_transaction}
use cytah_speed.Execution.Run.Round.{insert_account, sort_accounts, store_all, merge_accounts}
use cytah_speed.Execution.Run.Footprint.{execute_transaction-Lacks, execute_transaction-Agree}

-- An account of one of two disjoint sets is not in the other.
disjoint_account :
    (a : Address) (xs ys : List StateKey)
    → is_disjoint xs ys ≡ true
    → has_key (StateKey.account a) ys ≡ true
    → has_key (StateKey.account a) xs ≡ false
disjoint_account a [] ys apart found = refl
disjoint_account a (StateKey.account b ∷ xs) ys apart found = elim (Bool-cases (a == b)) [
  | inl same ↦
      let e : a ≡ b = ground (arith, same) in
      ground (arith, ap (λ (x : Address). has_key (StateKey.account x) ys) e, apart, found)
  | inr other ↦ ground (arith, other, apart, disjoint_account a xs ys)
]
disjoint_account a (StateKey.contract_storage b k ∷ xs) ys apart found =
    ground (arith, apart, disjoint_account a xs ys)
disjoint_account a (StateKey.contract_registry b ∷ xs) ys apart found =
    ground (arith, apart, disjoint_account a xs ys)

get-insert_account :
    (a : Address) (e : Address × Account) (m : Table Account)
    → (e.0 == a) ≡ false
    → get a m ≡ none
    → get a (insert_account e m) ≡ none
unfolding insert_account get
get-insert_account a e [] other absent = ground (arith, other)
get-insert_account a e ((b, acc) ∷ m) other absent =
    ground (arith, other, absent, get-insert_account a e m)

get-sort_accounts :
    (a : Address) (m : Table Account) → get a m ≡ none → get a (sort_accounts m) ≡ none
unfolding sort_accounts get
get-sort_accounts a [] absent = refl
get-sort_accounts a ((b, acc) ∷ m) absent =
    get-insert_account a (b, acc) (sort_accounts m) (ground (arith, absent))
      (get-sort_accounts a m (ground (arith, absent)))

module _ (rt : Runtime) where
  account_at-store_all :
      (a : Address) (m : Table Account) (s : StateManager)
      → get a m ≡ none
      → account_at a (store_all rt m s) ≡ account_at a s
  unfolding store_all get
  account_at-store_all a [] s absent = refl
  account_at-store_all a ((b, acc) ∷ m) s absent =
      let other : (b == a) ≡ false = ground (arith, absent) in
      let later : get a m ≡ none = ground (arith, absent) in
      account_at-store_all a m (store rt b acc s) later
      ∙ ground (arith, other, account_at-store rt a b acc s)

  -- Merging an overlay leaves every account alone that the overlay lacks.
  pub account_at-merge_accounts :
      (a : Address) (overlay : Overlay) (s : StateManager)
      → get a overlay.modified_accounts ≡ none
      → account_at a (merge_accounts rt overlay s) ≡ account_at a s
  unfolding merge_accounts
  account_at-merge_accounts a overlay s absent =
      account_at-refresh_root rt a (store_all rt (sort_accounts overlay.modified_accounts) s)
      ∙ account_at-store_all a (sort_accounts overlay.modified_accounts) s
          (get-sort_accounts a overlay.modified_accounts absent)

  -- If two transactions do not conflict, the one runs in the same way, with the same receipt and
  -- the same overlay, before and after the accounts that the other wrote have been merged: what
  -- the parallel run computes for it is what a run after the other one computes.
  pub execute_transaction_independent :
      (c : Crypto) (vm : Machine) (t u : Transaction) (base : StateManager)
      → transactions_conflict (analyze_access c t) (analyze_access c u) ≡ false
      → execute_transaction c vm u new_overlay
          (merge_accounts rt (execute_transaction c vm t new_overlay base).1 base)
        ≡ execute_transaction c vm u new_overlay base
  unfolding transactions_conflict
  execute_transaction_independent c vm t u base apart =
      let x = analyze_access c t in
      let y = analyze_access c u in
      let disjoint : is_disjoint x.writes y.reads ≡ true = ground (arith, apart) in
      execute_transaction-Agree c vm u _ base (λ a read.
        account_at-merge_accounts a (execute_transaction c vm t new_overlay base).1 base (
          execute_transaction-Lacks c vm a t base
            (disjoint_account a x.writes y.reads disjoint read)))
