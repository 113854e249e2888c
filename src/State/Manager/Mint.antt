-- ===== src/State/Manager/Mint.antt =====
-- Minting, fees and the emission counter.
use cytah_speed.Prelude.{
  ℕ, ◌+◌, ◌-◌, ◌≤◌, ◌<◌, min, ◌≡◌, ◌≢◌, ◌↔◌, ap, arith, ◌==◌, if◌then◌else◌, none, Option-cases,
  inl, inr, u64_max, wrapping_add, saturating_add,
}
use cytah_speed.Core.Transaction.{Address}
use cytah_speed.Consensus.Reward.{cts_max_supply, cts_genesis_allocation, cts_mining_supply}
use cytah_speed.State.Tree.{Account, Runtime, get_account}
use cytah_speed.State.Tree.Sums.{IsOrder}
use cytah_speed.State.Manager.{
  StateManager, blank_account, StateResult, account_at, store, refresh_root, apply_transfer,
  credit_account, deduct_fee, add_emitted_supply, initialize_tokenomics, ensure_account,
  get_total_supply, get_emitted_supply, genesis_wallet, emission_state_account,
}
use cytah_speed.State.Manager.Supply.{
  all_balances, holdings, holding, any_balance, account_at-store, account_at-refresh_root,
  weigh-refresh_root, holdings-store, weight-le-weigh, holding-blank, all_balances-store,
  get_total_supply-eq, get_emitted_supply-eq,
}
use cytah_speed.State.Manager.Transfer.{apply_transfer_effects}

module _ (rt : Runtime) where
  -- The state that `credit_account` leaves when it mints.
  abbrev minted : Address → ℕ → StateManager → StateManager
  minted to amount s =
      let account = account_at to s in
      refresh_root (
        store rt to
          (record { balance = wrapping_add account.balance amount; nonce = account.nonce }) s)

  holdings-minted :
      (to : Address) (amount : ℕ) (s : StateManager)
      → holdings s + amount ≤ cts_max_supply
      → holdings (minted to amount s)
        ≡ (if to == emission_state_account then holdings s else holdings s + amount)
  holdings-minted to amount s h =
      let account = account_at to s in
      let paid : Account = record {
        balance = wrapping_add account.balance amount;
        nonce = account.nonce;
      } in
      ground (
        arith,
        weigh-refresh_root rt holding (store rt to paid s),
        holdings-store rt to paid s,
        weight-le-weigh rt holding to s (holding-blank rt to),
      )

  -- However the account map iterates: when `credit_account` succeeds for a positive amount, the
  -- total supply afterwards is at most 600 000 000, and it has grown by exactly that amount,
  -- unless the receiver is the emission tracker, where it has not changed.
  pub credit_account_capped :
      (to : Address) (amount : ℕ) (s s' : StateManager)
      → IsOrder rt.order
      → 1 ≤ amount
      → credit_account rt to amount s ≡ (StateResult.ok, s')
      → (get_total_supply rt s' ≤ cts_max_supply)
        × (get_total_supply rt s' ≡ (
            if to == emission_state_account
            then get_total_supply rt s
            else get_total_supply rt s + amount))
  unfolding credit_account
  credit_account_capped to amount s s' order positive h =
      let before = get_total_supply-eq rt s order in
      let (room, moved) = split in
      let within : holdings s + amount ≤ cts_max_supply = omega (arith, before) in
      rw moved (
        ground (
          arith,
          before,
          get_total_supply-eq rt (minted to amount s) order,
          holdings-minted to amount s within,
        ),
        ground (
          arith,
          before,
          get_total_supply-eq rt (minted to amount s) order,
          holdings-minted to amount s within,
        ),
      )
    where
      split :
          (saturating_add (get_total_supply rt s) amount ≤ cts_max_supply)
          × (s' ≡ minted to amount s)
      split = ground arith

  -- A fee is deducted exactly if it is zero or the balance covers it; then the sum of all
  -- balances falls by exactly the fee, and otherwise nothing changes.
  pub deduct_fee_iff :
      (from : Address) (fee : ℕ) (s : StateManager)
      → ((deduct_fee rt from fee s).0 ≡ StateResult.ok ↔ (fee ≤ (account_at from s).balance))
        × ((deduct_fee rt from fee s).0 ≡ StateResult.ok
            → all_balances (deduct_fee rt from fee s).1 + fee ≡ all_balances s)
        × ((deduct_fee rt from fee s).0 ≢ StateResult.ok → (deduct_fee rt from fee s).1 ≡ s)
  unfolding deduct_fee
  deduct_fee_iff from fee s =
      let paid : Account = record {
        balance = (account_at from s).balance - fee;
        nonce = (account_at from s).nonce;
      } in
      (
        (λ h. ground arith, λ h. ground arith),
        λ h. ground (
          arith,
          weigh-refresh_root rt any_balance (store rt from paid s),
          all_balances-store rt from paid s,
        ),
        λ h. ground arith,
      )

  -- From an emission counter of at most 500 000 000, `add_emitted_supply` adds the amount and
  -- stops at 500 000 000.
  pub add_emitted_supply_capped :
      (amount : ℕ) (s : StateManager)
      → get_emitted_supply s ≤ cts_mining_supply
      → get_emitted_supply (add_emitted_supply rt amount s)
        ≡ min (get_emitted_supply s + amount) cts_mining_supply
  unfolding add_emitted_supply
  add_emitted_supply_capped amount s h =
      let acc = account_at emission_state_account s in
      let grown : Account = record {
        balance = saturating_add acc.balance (min amount (cts_mining_supply - acc.balance));
        nonce = acc.nonce;
      } in
      ground (
        arith,
        get_emitted_supply-eq rt s,
        get_emitted_supply-eq rt (refresh_root (store rt emission_state_account grown s)),
        account_at-refresh_root rt emission_state_account (store rt emission_state_account grown s),
        account_at-store rt emission_state_account emission_state_account grown s,
      )

  -- The counter of mined coins is an ordinary account: while all balances together stay below
  -- 2^64 - 1, a transfer of any other account to the address [255; 20] that succeeds raises the
  -- emitted supply by its amount, though nothing was mined.
  pub transfer_raises_emission :
      (from : Address) (amount nonce fee : ℕ) (s s' : StateManager)
      → from ≢ emission_state_account
      → all_balances s < u64_max
      → nonce < u64_max
      → apply_transfer rt from emission_state_account amount nonce fee s ≡ (StateResult.ok, s')
      → get_emitted_supply s' ≡ get_emitted_supply s + amount
  transfer_raises_emission from amount nonce fee s s' ne total small h =
      let effects =
        apply_transfer_effects rt from emission_state_account amount nonce fee s s' ne total small
          h in
      ap (λ (n : ℕ). n)
        (omega (
          arith,
          get_emitted_supply-eq rt s,
          get_emitted_supply-eq rt s',
          ap (λ (a : Account). a.balance) effects.1,
        ))

  account_at_absent :
      (k : Address) (s : StateManager)
      → get_account k s.state_tree ≡ none
      → account_at k s ≡ blank_account
  unfolding account_at
  account_at_absent k s h = rw h

  account_at-ensure_account :
      (j k : Address) (s : StateManager) → account_at j (ensure_account rt k s) ≡ account_at j s
  unfolding ensure_account
  account_at-ensure_account j k s = elim (Option-cases (get_account k s.state_tree)) [
    | inl e ↦ ground (arith, account_at_absent k s e, account_at-store rt j k blank_account s)
    | inr (a, e) ↦ rw e
  ]

  -- A genesis wallet without balance, be it because it has spent all, has 100 000 000 coins
  -- after `initialize_tokenomics`; one with a balance keeps its account.
  pub initialize_tokenomics_genesis :
      (s : StateManager)
      → account_at genesis_wallet (initialize_tokenomics rt s) ≡ (
          if (account_at genesis_wallet s).balance == 0
          then record {
            balance = cts_genesis_allocation;
            nonce = (account_at genesis_wallet s).nonce;
          }
          else account_at genesis_wallet s)
  unfolding initialize_tokenomics
  initialize_tokenomics_genesis s =
      let s₁ = ensure_account rt genesis_wallet s in
      let allocated : Account = record {
        balance = cts_genesis_allocation;
        nonce = (account_at genesis_wallet s₁).nonce;
      } in
      let kept = account_at-ensure_account genesis_wallet genesis_wallet s in
      ground (
        arith,
        kept,
        account_at-store rt genesis_wallet genesis_wallet allocated s₁,
        account_at-ensure_account genesis_wallet emission_state_account s₁,
        account_at-ensure_account genesis_wallet emission_state_account
            (store rt genesis_wallet allocated s₁),
        account_at-refresh_root rt genesis_wallet (ensure_account rt emission_state_account s₁),
        account_at-refresh_root rt genesis_wallet
            (ensure_account rt emission_state_account (store rt genesis_wallet allocated s₁)),
      )
