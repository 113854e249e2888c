-- ===== src/Execution/Tests.antt =====
-- The theorems on parallel execution, at concrete inputs.
use mathlib.Core.List.Perm
use mathlib.Core.List.{Perm, flatten, mem-cons_self, mem-cons_of_mem}
use cytah_speed.Prelude.{
  ◌≡◌, ◌≢◌, refl, inl, true, false, List, [], ◌∷◌, arith, map, be_bytes, le_bytes, subst, sym,
}
use cytah_speed.Samples.{sample_crypto, payment}
use cytah_speed.Core.Transaction.{Transaction, TxPayload, tx_hash}
use cytah_speed.Core.Block.Validity.{IsDistinct}
use cytah_speed.Execution.Access.{StateKey, has_key, analyze_access, transactions_conflict}
use cytah_speed.Execution.Schedule.{schedule_parallel_batches}
use cytah_speed.Execution.Schedule.Batches.{Batches, IsIteration, schedule_keeps_transactions}
use cytah_speed.Execution.Schedule.Apart.{scheduled_accesses_apart}
use cytah_speed.Execution.Schedule.Order.{schedule_reorders}

-- Alice pays Bob, then Carol (address 3) pays Dave (4), who pays Erin (5).
abbrev to_dave : Transaction
to_dave = record payment { from = 3; payload = TxPayload.transfer 4 20 }

abbrev to_erin : Transaction
to_erin = record payment { from = 4; payload = TxPayload.transfer 5 10 }

abbrev same : Batches → Batches
same m = m

same-IsIteration : IsIteration same
same-IsIteration m = Perm.refl m

abbrev three : List Transaction
three = payment ∷ to_dave ∷ to_erin ∷ []

schedule_keeps_transactions_example :
    Perm (flatten (schedule_parallel_batches sample_crypto same three)) three
schedule_keeps_transactions_example =
    schedule_keeps_transactions sample_crypto same three same-IsIteration

three_hashes : map (tx_hash sample_crypto) three ≡ 13_492 ∷ 659_152 ∷ 578_397 ∷ []
unfolding tx_hash be_bytes le_bytes
three_hashes = refl

hashes_differ :
    (tx_hash sample_crypto payment ≢ tx_hash sample_crypto to_dave)
    × ((tx_hash sample_crypto payment ≢ tx_hash sample_crypto to_erin)
        × (tx_hash sample_crypto to_dave ≢ tx_hash sample_crypto to_erin))
hashes_differ = ground (arith, three_hashes)

schedule_reorders_example :
    schedule_parallel_batches sample_crypto same three
    ≡ (payment ∷ to_erin ∷ []) ∷ (to_dave ∷ []) ∷ []
unfolding analyze_access transactions_conflict
schedule_reorders_example =
    schedule_reorders sample_crypto same payment to_dave to_erin (λ x y. inl refl) hashes_differ.0
      hashes_differ.1.0 hashes_differ.1.1 refl refl refl

three-IsDistinct : IsDistinct (map (tx_hash sample_crypto) three)
three-IsDistinct = subst IsDistinct (sym three_hashes) (refl, (refl, (refl, tt)))

payer_written :
    has_key (StateKey.account payment.from) (analyze_access sample_crypto payment).writes ≡ true
unfolding analyze_access
payer_written = refl

scheduled_accesses_apart_example :
    (has_key (StateKey.account payment.from) (analyze_access sample_crypto to_erin).reads ≡ false)
    × (has_key (StateKey.account payment.from) (analyze_access sample_crypto to_erin).writes
        ≡ false)
scheduled_accesses_apart_example =
    scheduled_accesses_apart sample_crypto same three (payment ∷ to_erin ∷ []) payment to_erin
      (StateKey.account payment.from) same-IsIteration three-IsDistinct
      (rw schedule_reorders_example mem-cons_self) mem-cons_self (mem-cons_of_mem _ mem-cons_self)
      hashes_differ.1.0 payer_written
