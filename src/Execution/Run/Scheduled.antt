-- ===== src/Execution/Run/Scheduled.antt =====
-- The batches of the schedule run as they would in turn.
use mathlib.Core.Logic.{∥∥₁_elim}
use mathlib.Core.List.Perm
use mathlib.Core.List.{Perm, Permᴰ, Perm-prop, Mem, Memᴰ, flatten, mem-cons_self, mem-cons_of_mem}
use cytah_speed.Prelude.{
  ℕ, ◌≡◌, ◌≢◌, refl, sym, ap, ◌∙◌, subst, true, false, ◌||◌, List, [], ◌∷◌, ◌++◌, All, map,
  contains, arith,
}
use cytah_speed.Core.Transaction.{Transaction, Crypto, tx_hash}
use cytah_speed.Core.Block.Validity.{IsDistinct}
use cytah_speed.State.Tree.{Runtime}
use cytah_speed.Execution.Access.{analyze_access, transactions_conflict}
use cytah_speed.Execution.Schedule.{schedule_parallel_batches}
use cytah_speed.Execution.Schedule.Batches.{Batches, IsIteration, schedule_keeps_transactions}
use cytah_speed.Execution.Schedule.Conflicts.{batch_has_no_conflict}
use cytah_speed.Execution.Run.Round.{World, WasmRuntime, run_batch}
use cytah_speed.Execution.Run.Batch.{IsApart, IsIndependent, run_in_turn, run_batch-run_in_turn}
use cytah_speed.Execution.Run.Disjoint.{is_transfer}

module _ (h : Transaction → ℕ) where
  contains-Permᴰ :
      (a : ℕ) {xs ys : List Transaction}
      → Permᴰ xs ys
      → contains (map h xs) a ≡ contains (map h ys) a
  contains-Permᴰ a Permᴰ.nil = refl
  contains-Permᴰ a (Permᴰ.cons e p) = ground (arith, ap h e, contains-Permᴰ a p)
  contains-Permᴰ a (Permᴰ.swap e f) = ground (arith, ap h e, ap h f)
  contains-Permᴰ a (Permᴰ.trans p q) = contains-Permᴰ a p ∙ contains-Permᴰ a q

  IsDistinct-Permᴰ :
      {xs ys : List Transaction} → Permᴰ xs ys → IsDistinct (map h xs) → IsDistinct (map h ys)
  IsDistinct-Permᴰ Permᴰ.nil d = tt
  IsDistinct-Permᴰ (Permᴰ.cons {a = x} {l₁ = xs} {l₂ = ys} e p) d =
      (ground (arith, ap h e, contains-Permᴰ (h x) p, d.0), IsDistinct-Permᴰ p d.1)
  IsDistinct-Permᴰ (Permᴰ.swap e f) d = (
    ground (arith, ap h e, ap h f, d.0, d.1.0),
    (ground (arith, ap h e, ap h f, d.0, d.1.0), d.1.1),
  )
  IsDistinct-Permᴰ (Permᴰ.trans p q) d = IsDistinct-Permᴰ q (IsDistinct-Permᴰ p d)

  contains-append :
      (a : ℕ) (xs ys : List Transaction)
      → contains (map h (xs ++ ys)) a ≡ (contains (map h xs) a || contains (map h ys) a)
  contains-append a [] ys = refl
  contains-append a (x ∷ xs) ys = ground (arith, contains-append a xs ys)

  IsDistinct-prefix :
      (xs ys : List Transaction) → IsDistinct (map h (xs ++ ys)) → IsDistinct (map h xs)
  IsDistinct-prefix [] ys d = tt
  IsDistinct-prefix (x ∷ xs) ys d =
      (ground (arith, contains-append (h x) xs ys, d.0), IsDistinct-prefix xs ys d.1)

  IsDistinct-suffix :
      (xs ys : List Transaction) → IsDistinct (map h (xs ++ ys)) → IsDistinct (map h ys)
  IsDistinct-suffix [] ys d = d
  IsDistinct-suffix (x ∷ xs) ys d = IsDistinct-suffix xs ys d.1

  IsDistinct-part :
      (b : List Transaction) (bs : List (List Transaction))
      → Memᴰ b bs
      → IsDistinct (map h (flatten bs))
      → IsDistinct (map h b)
  unfolding flatten
  IsDistinct-part b [] m d = elim m [ ]
  IsDistinct-part b (x ∷ bs) (Memᴰ.head e) d =
      subst (λ (l : List Transaction). IsDistinct (map h l)) (sym e)
        (IsDistinct-prefix x (flatten bs) d)
  IsDistinct-part b (x ∷ bs) (Memᴰ.tail m) d =
      IsDistinct-part b bs m (IsDistinct-suffix x (flatten bs) d)

-- Of every two transactions of the list one is a transfer: at most one of them deploys or calls a
-- contract.
abbrev pub HasOneContract : List Transaction → Type 0
HasOneContract [] = Unit
HasOneContract (t ∷ ts) =
    All (λ u. (is_transfer t.payload || is_transfer u.payload) ≡ true) ts × HasOneContract ts

module _ (c : Crypto) (vm : WasmRuntime) (rt : Runtime) where
  no_conflict_ahead :
      (t : Transaction) (us : List Transaction)
      → ((u : Transaction)
          → Mem u us
          → tx_hash c t ≢ tx_hash c u
          → transactions_conflict (analyze_access c t) (analyze_access c u) ≡ false)
      → contains (map (tx_hash c) us) (tx_hash c t) ≡ false
      → All (λ u. (is_transfer t.payload || is_transfer u.payload) ≡ true) us
      → All (IsApart c vm rt t) us
  no_conflict_ahead t [] apart new one = tt
  no_conflict_ahead t (u ∷ us) apart new one = (
    (apart u mem-cons_self (ground (arith, new)), one.0),
    no_conflict_ahead t us (λ v m other. apart v (mem-cons_of_mem u m) other) (ground (arith, new))
        one.1,
  )

  distinct-IsIndependent :
      (b : List Transaction)
      → ((t u : Transaction)
          → Mem t b
          → Mem u b
          → tx_hash c t ≢ tx_hash c u
          → transactions_conflict (analyze_access c t) (analyze_access c u) ≡ false)
      → IsDistinct (map (tx_hash c) b)
      → HasOneContract b
      → IsIndependent c vm rt b
  distinct-IsIndependent [] apart d one = tt
  distinct-IsIndependent (t ∷ b) apart d one = (
    no_conflict_ahead t b (λ u m other. apart t u mem-cons_self (mem-cons_of_mem t m) other) d.0
        one.0,
    distinct-IsIndependent b
        (λ u v m n other. apart u v (mem-cons_of_mem t m) (mem-cons_of_mem t n) other) d.1 one.1,
  )

  -- For transactions with distinct hashes, however the map of batches iterates, and for a batch of
  -- the schedule that deploys or calls at most one contract, beside any number of transfers: the
  -- receipts of the batch, whose transactions all run on the state before it, are the receipts of
  -- the same transactions run in turn, each on the accounts, the contract storage and the
  -- registry as the merges of those before it have left them, up to their order.
  pub scheduled_batch_in_turn :
      (order : Batches → Batches) (txs b : List Transaction) (w : World)
      → IsIteration order
      → IsDistinct (map (tx_hash c) txs)
      → Mem b (schedule_parallel_batches c order txs)
      → HasOneContract b
      → Perm (run_batch c vm rt b w).0 (map (λ r. r.0) (run_in_turn c vm rt b w))
  scheduled_batch_in_turn order txs b w iterates distinct scheduled one =
      ∥∥₁_elim (Perm.symm (schedule_keeps_transactions c order txs iterates)) Perm-prop λ p.
        ∥∥₁_elim scheduled Perm-prop λ m. run_batch-run_in_turn c vm rt b w (
          distinct-IsIndependent b
            (λ t u in_t in_u other.
              batch_has_no_conflict c order txs b t u iterates distinct scheduled in_t in_u other)
            (IsDistinct-part (tx_hash c) b (schedule_parallel_batches c order txs) m
              (IsDistinct-Permᴰ (tx_hash c) p distinct))
            one)
