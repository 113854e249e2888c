-- ===== src/Security/PreValidation/Accepted.antt =====
-- Which blocks of transactions pass.
use cytah_speed.Prelude.{
  ℕ, ◌≡◌, ◌↔◌, refl, sym, ap, subst, ◌∙◌, true, false, List, [], ◌∷◌, ◌++◌, arith, ◌==◌, ==_iff,
  contains, All, map, Bool-cases, inl, inr, if◌then◌else◌,
}
use cytah_speed.Core.Transaction.{Hash, Crypto, Transaction, tx_hash}
use cytah_speed.Core.Block.Validity.{IsDistinct}
use cytah_speed.Dag.Index.{set_insert}
use cytah_speed.Dag.Index.Updates.{contains-set_insert}
use cytah_speed.Security.PreValidation.{
  ValidationError, TransactionPreValidator, pre_validate_transaction, report, check_transactions,
  validate_block_transactions,
}

module _ (crypto : Crypto) (tx_size : ℕ) (v : TransactionPreValidator) where
  grown : (xs : List ValidationError) (e : ValidationError) → xs ++ e ∷ [] ≡ [] → ⊥
  grown [] e h = cc
  grown (x ∷ xs) e h = cc

  report-none :
      (es errors : List ValidationError)
      → report crypto tx_size v es errors ≡ []
      → (es ≡ []) × (errors ≡ [])
  unfolding report
  report-none [] errors h = (refl, h)
  report-none (e ∷ es) errors h = absurd (
      grown errors ValidationError.invalid_format
        (report-none es (errors ++ ValidationError.invalid_format ∷ []) h).1)

  hashes : List Transaction → List Hash
  hashes txs = map (tx_hash crypto) txs

  check_transactions-none :
      (txs : List Transaction) (seen : List Hash) (errors : List ValidationError)
      → check_transactions crypto tx_size v txs seen errors ≡ []
      → (errors ≡ [])
        × All (λ tx. pre_validate_transaction crypto tx_size v tx ≡ []) txs
        × IsDistinct (hashes txs)
        × ((x : Hash) → contains (hashes txs) x ≡ true → contains seen x ≡ false)
  unfolding check_transactions hashes
  check_transactions-none [] seen errors e = (e, tt, tt, λ x m. cc)
  check_transactions-none (tx ∷ txs) seen errors e =
      let h = tx_hash crypto tx in
      let reported =
        report crypto tx_size v (pre_validate_transaction crypto tx_size v tx) errors in
      let (none_left, passing, distinct, apart) =
        check_transactions-none txs (set_insert h seen)
          (if contains seen h then reported ++ ValidationError.invalid_format ∷ [] else reported)
          e in
      elim (Bool-cases (contains seen h)) [
        | inl twice ↦
            absurd
              (grown reported ValidationError.invalid_format (ground (arith, none_left, twice)))
        | inr new ↦
            let (own, before) =
              report-none (pre_validate_transaction crypto tx_size v tx) errors
                (ground (arith, none_left, new)) in
            (
              before,
              (own, passing),
              (ground (arith, apart h, contains-set_insert h seen h, ==_iff h h), distinct),
              λ x m. elim (Bool-cases (h == x)) [
                | inl same ↦ subst (λ (y : ℕ). contains seen y ≡ false) ((==_iff h x).0 same) new
                | inr other ↦ ground (arith, m, other, apart x, contains-set_insert h seen x)
              ],
            )
      ]

  check_transactions-pass :
      (txs : List Transaction) (seen : List Hash)
      → All (λ tx. pre_validate_transaction crypto tx_size v tx ≡ []) txs
      → IsDistinct (hashes txs)
      → ((x : Hash) → contains (hashes txs) x ≡ true → contains seen x ≡ false)
      → check_transactions crypto tx_size v txs seen [] ≡ []
  unfolding check_transactions hashes report
  check_transactions-pass [] seen passing distinct apart = refl
  check_transactions-pass (tx ∷ txs) seen passing distinct apart =
      let h = tx_hash crypto tx in
      let new : contains seen h ≡ false = apart h (ground (arith, ==_iff h h)) in
      let own : report crypto tx_size v (pre_validate_transaction crypto tx_size v tx) [] ≡ [] =
        ap (λ es. report crypto tx_size v es []) passing.0 in
      let clean : (if contains seen h
            then report crypto tx_size v (pre_validate_transaction crypto tx_size v tx) []
              ++ ValidationError.invalid_format ∷ []
            else report crypto tx_size v (pre_validate_transaction crypto tx_size v tx) [])
          ≡ [] =
        ground (arith, new, own) in
      ap (check_transactions crypto tx_size v txs (set_insert h seen)) clean
      ∙ check_transactions-pass txs (set_insert h seen) passing.1 distinct.1 (λ x m.
        elim (Bool-cases (h == x)) [
          | inl same ↦
              let m' =
                subst (λ (y : ℕ). contains (map (tx_hash crypto) txs) y ≡ true)
                  (sym ((==_iff h x).0 same)) m in
              absurd (ground (arith, m', distinct.0))
          | inr other ↦ ground (arith, other, m, apart x, contains-set_insert h seen x)
        ])

  -- The transactions of a block pass exactly if each of them passes alone and no two have the
  -- same hash.
  pub validate_block_transactions_iff :
      (txs : List Transaction)
      → (validate_block_transactions crypto tx_size v txs ≡ []) ↔ (
          All (λ tx. pre_validate_transaction crypto tx_size v tx ≡ []) txs
          × IsDistinct (map (tx_hash crypto) txs))
  unfolding validate_block_transactions hashes
  validate_block_transactions_iff txs = (
    λ e.
        let (start, passing, distinct, apart) = check_transactions-none txs [] [] e in
        (passing, distinct),
    λ p. check_transactions-pass txs [] p.0 p.1 (λ x m. refl),
  )
