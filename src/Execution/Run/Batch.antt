-- ===== src/Execution/Run/Batch.antt =====
-- A batch that runs at once against the same batch that runs in turn.
use mathlib.Core.List.Perm
use mathlib.Core.List.{Perm}
use cytah_speed.Prelude.{
  ◌≡◌, refl, sym, ap, ◌∙◌, true, false, ◌||◌, List, [], ◌∷◌, All, map, if_ind, subst,
}
use cytah_speed.Core.Transaction.{Transaction, Crypto}
use cytah_speed.State.Tree.{Runtime}
use cytah_speed.Execution.Access.{analyze_access, transactions_conflict}
use cytah_speed.Execution.Run.{Outcome, TransactionReceipt}
use cytah_speed.Execution.Run.Round.{
  World, WasmRuntime, execute_on, merge_result, insert_result, sort_results, receipts_of, run_batch,
}
use cytah_speed.Execution.Run.Disjoint.{is_transfer, execute_on_independent}

insert_result-perm : (r : Outcome) (rs : List Outcome) → Perm (insert_result r rs) (r ∷ rs)
unfolding insert_result
insert_result-perm r [] = Perm.rfl
insert_result-perm r (q ∷ qs) =
    if_ind (λ (l : List Outcome). Perm l (r ∷ q ∷ qs)) _ (λ _. Perm.rfl)
      (λ _. Perm.trans (Perm.cons q (insert_result-perm r qs)) (Perm.swap r q qs))

sort_results-perm : (rs : List Outcome) → Perm (sort_results rs) rs
unfolding sort_results
sort_results-perm [] = Perm.rfl
sort_results-perm (r ∷ rs) =
    Perm.trans (insert_result-perm r (sort_results rs)) (Perm.cons r (sort_results-perm rs))

receipts_of-map : (rs : List Outcome) → receipts_of rs ≡ map (λ r. r.0) rs
receipts_of-map [] = refl
receipts_of-map (r ∷ rs) = ap (λ (l : List TransactionReceipt). r.0 ∷ l) (receipts_of-map rs)

module _ (c : Crypto) (vm : WasmRuntime) (rt : Runtime) where
  -- The same transactions one after the other, each on the state that the one before leaves.
  unfoldable pub run_in_turn : List Transaction → World → List Outcome
  run_in_turn [] s = []
  run_in_turn (t ∷ ts) s = let r = execute_on c vm t s in r ∷ run_in_turn ts (merge_result rt r s)

  -- The first does not conflict with the second, and one of the two is a transfer.
  abbrev pub IsApart : Transaction → Transaction → Type 0
  IsApart t u =
      (transactions_conflict (analyze_access c t) (analyze_access c u) ≡ false)
      × ((is_transfer t.payload || is_transfer u.payload) ≡ true)

  -- Every transaction is apart from the later ones.
  abbrev pub IsIndependent : List Transaction → Type 0
  IsIndependent [] = Unit
  IsIndependent (t ∷ ts) = All (IsApart t) ts × IsIndependent ts

  -- A transaction runs on s as it does on base.
  abbrev RunsAlike : World → World → Transaction → Type 0
  RunsAlike s base u = execute_on c vm u s ≡ execute_on c vm u base

  alike_later :
      (t : Transaction) (us : List Transaction) (s base : World)
      → All (IsApart t) us
      → All (RunsAlike s base) us
      → All (RunsAlike (merge_result rt (execute_on c vm t s) s) base) us
  unfolding merge_result
  alike_later t [] s base apart alike = tt
  alike_later t (u ∷ us) s base apart alike = (
    if_ind (λ (s' : World). RunsAlike s' base u) (execute_on c vm t s).0.success
        (λ _. execute_on_independent c rt vm t u s apart.0.0 apart.0.1 ∙ alike.0) (λ _. alike.0),
    alike_later t us s base apart.1 alike.1,
  )

  run_in_turn-map :
      (ts : List Transaction) (s base : World)
      → IsIndependent ts
      → All (RunsAlike s base) ts
      → run_in_turn ts s ≡ map (λ tx. execute_on c vm tx base) ts
  unfolding run_in_turn
  run_in_turn-map [] s base apart alike = refl
  run_in_turn-map (t ∷ ts) s base apart alike =
      ap (λ (r : Outcome). r ∷ run_in_turn ts (merge_result rt (execute_on c vm t s) s)) alike.0
      ∙ ap (λ (rs : List Outcome). execute_on c vm t base ∷ rs)
          (run_in_turn-map ts (merge_result rt (execute_on c vm t s) s) base apart.1
            (alike_later t ts s base apart.0 alike.1))

  starts_alike : (ts : List Transaction) (s : World) → All (RunsAlike s s) ts
  starts_alike [] s = tt
  starts_alike (t ∷ ts) s = (refl, starts_alike ts s)

  -- For a batch in which no transaction conflicts with a later one and of every two one is a
  -- transfer: the receipts of the batch, whose transactions all run on the state before it, are
  -- the receipts of the same transactions run in turn, each on what those before it have left, up
  -- to their order.
  pub run_batch-run_in_turn :
      (txs : List Transaction) (s : World)
      → IsIndependent txs
      → Perm (run_batch c vm rt txs s).0 (map (λ r. r.0) (run_in_turn txs s))
  unfolding run_batch
  run_batch-run_in_turn txs s apart =
      let results = map (λ tx. execute_on c vm tx s) txs in
      subst (λ (l : List TransactionReceipt). Perm l (map (λ r. r.0) (run_in_turn txs s)))
        (sym (receipts_of-map (sort_results results)))
        (Perm.map (λ r. r.0)
          (subst (λ (rs : List Outcome). Perm (sort_results results) rs)
            (sym (run_in_turn-map txs s s apart (starts_alike txs s))) (sort_results-perm results)))
