-- ===== src/State/Manager/Supply.antt =====
-- Account reads after account writes, and the sums that the writes change.
use cytah_speed.Prelude.{
  ℕ, ◌+◌, ◌≤◌, min, ◌≡◌, refl, sym, ◌∙◌, [], ◌∷◌, arith, ◌==◌, if◌then◌else◌, Table, get,
  get-insert, u64_max, Option-cases, inl, inr,
}
use cytah_speed.Core.Transaction.{Address}
use cytah_speed.State.Tree.{Account, Runtime}
use cytah_speed.State.Tree.Sums.{
  IsOrder, weigh, weight_of, weigh-insert, weight_of-le-weigh, weigh-order,
}
use cytah_speed.State.Manager.{
  StateManager, blank_account, emission_state_account, account_at, refresh_root, store,
  sum_holdings, get_total_supply, get_balance, get_emitted_supply,
}

-- Every account's balance counts, or every account's but the emission tracker's.
abbrev pub any_balance : Address → Account → ℕ
any_balance a acc = acc.balance

abbrev pub holding : Address → Account → ℕ
holding a acc = if a == emission_state_account then 0 else acc.balance

abbrev pub all_balances : StateManager → ℕ
all_balances s = weigh any_balance s.state_tree.leaves

abbrev pub holdings : StateManager → ℕ
holdings s = weigh holding s.state_tree.leaves

module _ (rt : Runtime) where
  pub account_at-store :
      (j k : Address) (v : Account) (s : StateManager)
      → account_at j (store rt k v s) ≡ (if k == j then v else account_at j s)
  unfolding account_at store
  account_at-store j k v s = ground (arith, get-insert j k v s.state_tree.leaves)

  pub account_at-refresh_root :
      (j : Address) (s : StateManager) → account_at j (refresh_root s) ≡ account_at j s
  unfolding account_at refresh_root
  account_at-refresh_root j s = refl

  pub weigh-refresh_root :
      (w : Address → Account → ℕ) (s : StateManager)
      → weigh w (refresh_root s).state_tree.leaves ≡ weigh w s.state_tree.leaves
  unfolding refresh_root
  weigh-refresh_root w s = refl

  weight_of-account_at :
      (w : Address → Account → ℕ) (k : Address) (s : StateManager)
      → w k blank_account ≡ 0
      → weight_of w k (get k s.state_tree.leaves) ≡ w k (account_at k s)
  unfolding account_at
  weight_of-account_at w k s h = elim (Option-cases (get k s.state_tree.leaves)) [
    | inl e ↦ rw e (sym h)
    | inr (a, e) ↦ rw e
  ]

  pub weigh-store :
      (w : Address → Account → ℕ) (k : Address) (v : Account) (s : StateManager)
      → w k blank_account ≡ 0
      → weigh w (store rt k v s).state_tree.leaves + w k (account_at k s)
        ≡ weigh w s.state_tree.leaves + w k v
  unfolding store
  weigh-store w k v s h =
      omega (arith, weigh-insert w k v s.state_tree.leaves, weight_of-account_at w k s h)

  pub weight-le-weigh :
      (w : Address → Account → ℕ) (k : Address) (s : StateManager)
      → w k blank_account ≡ 0
      → w k (account_at k s) ≤ weigh w s.state_tree.leaves
  weight-le-weigh w k s h =
      omega (arith, weight_of-le-weigh w k s.state_tree.leaves, weight_of-account_at w k s h)

  pub balance-le-all : (k : Address) (s : StateManager) → (account_at k s).balance ≤ all_balances s
  balance-le-all k s = weight-le-weigh any_balance k s refl

  pub all_balances-store :
      (k : Address) (v : Account) (s : StateManager)
      → all_balances (store rt k v s) + (account_at k s).balance ≡ all_balances s + v.balance
  all_balances-store k v s = weigh-store any_balance k v s refl

  pub holding-blank : (k : Address) → holding k blank_account ≡ 0
  holding-blank k = ground arith

  pub holdings-store :
      (k : Address) (v : Account) (s : StateManager)
      → holdings (store rt k v s) + holding k (account_at k s) ≡ holdings s + holding k v
  holdings-store k v s = weigh-store holding k v s (holding-blank k)

  sum_holdings-eq :
      (total : ℕ) (m : Table Account)
      → total ≤ u64_max
      → sum_holdings total m ≡ min (total + weigh holding m) u64_max
  unfolding sum_holdings weigh
  sum_holdings-eq total [] h = omega arith
  sum_holdings-eq total ((a, acc) ∷ m) h =
      ground (arith, sum_holdings-eq total m, sum_holdings-eq (min (total + acc.balance) u64_max) m)

  -- Whatever the order in which the map iterates, `get_total_supply` is the sum of the balances
  -- of all accounts but the emission tracker, capped at the largest 64-bit number.
  pub get_total_supply-eq :
      (s : StateManager) → IsOrder rt.order → get_total_supply rt s ≡ min (holdings s) u64_max
  unfolding get_total_supply
  get_total_supply-eq s order =
      sum_holdings-eq 0 (rt.order s.state_tree.leaves) (omega arith)
      ∙ omega (arith, weigh-order holding rt.order order s.state_tree.leaves)

  pub get_balance-eq : (a : Address) (s : StateManager) → get_balance a s ≡ (account_at a s).balance
  unfolding get_balance account_at
  get_balance-eq a s = ground arith

  pub get_emitted_supply-eq :
      (s : StateManager) → get_emitted_supply s ≡ (account_at emission_state_account s).balance
  unfolding get_emitted_supply account_at
  get_emitted_supply-eq s = ground arith
