-- ===== src/State/Tests.antt =====
-- The theorems on the account state, at concrete inputs.
use mathlib.Core.List.Perm
use cytah_speed.Prelude.{
  ◌<◌, ◌≤◌, ◌≡◌, ◌≢◌, refl, ◌*◌, ◌+◌, ◌-◌, [], ◌∷◌, none, arith, ◌==◌, get, if◌then◌else◌, u64_max,
}
use cytah_speed.Samples.{sample_runtime, payment, sample_block}
use cytah_speed.Core.Transaction.{Address}
use cytah_speed.Core.Block.{Block}
use cytah_speed.Consensus.Reward.{cts_max_supply, cts_mining_supply, cts_genesis_allocation}
use cytah_speed.State.Tree.{rebuild_tree}
use cytah_speed.State.Tree.Sums.{IsOrder, weigh}
use cytah_speed.State.Tree.Merkle.{Commits, rebuild_tree-Commits}
use cytah_speed.State.Manager.{
  StateManager, StateResult, StateError, genesis_wallet, emission_state_account, account_at,
  get_emitted_supply, initialize_tokenomics, get_total_supply, apply_transfer, apply_transaction,
  credit_account, apply_payload,
}
use cytah_speed.State.Manager.Supply.{all_balances}
use cytah_speed.State.Manager.Transfer.{
  apply_transaction_conserves, apply_transfer_effects, apply_transaction_replay,
}
use cytah_speed.State.Manager.Mint.{credit_account_capped, initialize_tokenomics_genesis}

-- Alice has 1000 coins, Bob 50, and Carol (address 3) 7.
abbrev ledger : StateManager
ledger = record {
  state_tree = record {
    root = none;
    leaves =
        (1, record { balance = 1000; nonce = 0 })
        ∷ (2, record { balance = 50; nonce = 4 })
        ∷ (3, record { balance = 7; nonce = 0 })
        ∷ [];
  };
  current_state_root = 0;
}

sample-IsOrder : IsOrder sample_runtime.order
sample-IsOrder m = Perm.refl m

few_coins : all_balances ledger < u64_max
unfolding weigh
few_coins = omega arith

rebuild_tree-Commits_example :
    Commits sample_runtime
      (rebuild_tree sample_runtime ledger.state_tree.leaves)
      ledger.state_tree.leaves
rebuild_tree-Commits_example = rebuild_tree-Commits sample_runtime ledger.state_tree.leaves

abbrev after_payment : StateManager
after_payment = (apply_transaction sample_runtime payment ledger).1

payment_ok : apply_transaction sample_runtime payment ledger ≡ (StateResult.ok, after_payment)
unfolding apply_transaction apply_payload apply_transfer account_at get
payment_ok = refl

apply_transaction_conserves_example : all_balances after_payment + 10 * 2 ≡ all_balances ledger
apply_transaction_conserves_example =
    apply_transaction_conserves sample_runtime payment 2 300 ledger after_payment refl few_coins
      payment_ok

apply_transaction_replay_example :
    apply_transaction sample_runtime payment after_payment
    ≡ (StateResult.err (StateError.invalid_nonce 1 0), after_payment)
apply_transaction_replay_example =
    apply_transaction_replay sample_runtime payment 2 300 ledger after_payment refl (omega arith)
      payment_ok

abbrev after_transfer : StateManager
after_transfer = (apply_transfer sample_runtime 1 2 300 0 20 ledger).1

transfer_ok : apply_transfer sample_runtime 1 2 300 0 20 ledger ≡ (StateResult.ok, after_transfer)
unfolding apply_transfer account_at get
transfer_ok = refl

abbrev alice : Address
alice = 1

abbrev bob : Address
bob = 2

distinct_payees : alice ≢ bob
distinct_payees = λ e. omega arith

apply_transfer_effects_example :
    (account_at 1 after_transfer
      ≡ record { balance = (account_at 1 ledger).balance - (300 + 20); nonce = 0 + 1 })
    × (account_at 2 after_transfer ≡ record {
      balance = (account_at 2 ledger).balance + 300;
      nonce = (account_at 2 ledger).nonce;
    })
    × ((j : Address) → j ≢ 1 → j ≢ 2 → account_at j after_transfer ≡ account_at j ledger)
apply_transfer_effects_example =
    apply_transfer_effects sample_runtime 1 2 300 0 20 ledger after_transfer distinct_payees
      few_coins (omega arith) transfer_ok

abbrev after_gift : StateManager
after_gift = (apply_transfer sample_runtime 1 emission_state_account 300 0 20 ledger).1

gift_ok :
    apply_transfer sample_runtime 1 emission_state_account 300 0 20 ledger
    ≡ (StateResult.ok, after_gift)
unfolding apply_transfer account_at get
gift_ok = refl

not_emission : alice ≢ emission_state_account
not_emission = λ e. omega arith

abbrev after_reward : StateManager
after_reward = (credit_account sample_runtime 2 100 ledger).1

reward_ok : credit_account sample_runtime 2 100 ledger ≡ (StateResult.ok, after_reward)
unfolding credit_account get_total_supply
reward_ok = refl

credit_account_capped_example :
    (get_total_supply sample_runtime after_reward ≤ cts_max_supply)
    × (get_total_supply sample_runtime after_reward ≡ (
        if 2 == emission_state_account
        then get_total_supply sample_runtime ledger
        else get_total_supply sample_runtime ledger + 100))
credit_account_capped_example =
    credit_account_capped sample_runtime 2 100 ledger after_reward sample-IsOrder (omega arith)
      reward_ok

nothing_emitted : get_emitted_supply ledger ≤ cts_mining_supply
unfolding get_emitted_supply get
nothing_emitted = omega arith

initialize_tokenomics_genesis_example :
    account_at genesis_wallet (initialize_tokenomics sample_runtime ledger) ≡ (
      if (account_at genesis_wallet ledger).balance == 0
      then record {
        balance = cts_genesis_allocation;
        nonce = (account_at genesis_wallet ledger).nonce;
      }
      else account_at genesis_wallet ledger)
initialize_tokenomics_genesis_example = initialize_tokenomics_genesis sample_runtime ledger

abbrev paying_block : Block
paying_block = record (sample_block 3 1 []) { transactions = payment ∷ [] }
