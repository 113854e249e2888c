-- ===== src/Finality/Scores.antt =====
-- The scores that the engine gives to the blocks of a topological order.
use cytah_speed.Prelude.{
  ℕ, suc, ◌<◌, ◌≡◌, refl, sym, subst, ◌∙◌, true, false, ◌||◌, some, List, [], ◌∷◌, ◌++◌, arith,
  ◌==◌, ==_iff, ==_self, contains, contains_key, Table, get, insert, get-insert, IsKeyed,
  insert-IsKeyed, Bool-cases, inl, inr,
}
use mathlib.Core.List.{append_assoc, append-nil}
use cytah_speed.Core.Block.{BlockHash, Block}
use cytah_speed.Core.Block.Validity.{IsDistinct}
use cytah_speed.Dag.Index.{parents_of}
use cytah_speed.Dag.Worklist.Found.{contains-append}
use cytah_speed.Dag.Order.Waiting.{IsOrderedAfter, missing_zero_all, IsDistinct-middle}
use cytah_speed.Dag.Engine.Parents.{IsLinked, stored_some}
use cytah_speed.Dag.Queries.Heights.{get_block_height_returns}
use cytah_speed.Finality.{done, height_of, scan_ordering}

-- A stored block of a linked graph has a height.
pub height_of_known :
    (store : Table Block) (h : BlockHash)
    → IsLinked store
    → contains_key h store ≡ true
    → (height : ℕ) × (height_of store h ≡ done height)
unfolding height_of
height_of_known store h linked known =
    let (b, found) = stored_some h store known in
    let (height, e) = get_block_height_returns store linked h b found in (height, ground (arith, e))

-- Scores of the blocks seen so far, below a bound, and lower for parents than for children.
pub record IsScored (store : Table Block) (seen : List BlockHash) (scores : Table ℕ) (n : ℕ)
    : Type 0 where
  pub ranked :
      (v : BlockHash) → contains seen v ≡ true → (s : ℕ) × (get v scores ≡ some s) × (s < n)
  pub parents_lower :
      (h p : BlockHash)
      → contains seen h ≡ true
      → contains (parents_of store h) p ≡ true
      → (s : ℕ) × (t : ℕ) × (get p scores ≡ some s) × (get h scores ≡ some t) × (s < t)
  pub only : (v : BlockHash) (s : ℕ) → get v scores ≡ some s → contains seen v ≡ true
  pub keyed : IsKeyed scores

IsScored-next :
    (store : Table Block) (seen : List BlockHash) (scores : Table ℕ) (n : ℕ) (h : BlockHash)
    → contains seen h ≡ false
    → ((p : BlockHash) → contains (parents_of store h) p ≡ true → contains seen p ≡ true)
    → IsScored store seen scores n
    → IsScored store (seen ++ h ∷ []) (insert h n scores) (suc n)
IsScored-next store seen scores n h new above i = record {
  ranked = λ v m. elim (Bool-cases (h == v)) [
    | inl same ↦ (n, ground (arith, same, get-insert v h n scores), omega arith)
    | inr other ↦
        let (s, e, low) = i.ranked v (ground (arith, m, other, joined v)) in
        (s, ground (arith, other, get-insert v h n scores, e), omega (arith, low))
  ];
  parents_lower = λ c p m named. elim (Bool-cases (h == c)) [
    | inl same ↦
        let named' =
          subst (λ (x : ℕ). contains (parents_of store x) p ≡ true) (sym ((==_iff h c).0 same))
            named in
        let old = above p named' in
        let (s, e, low) = i.ranked p old in
        (s, n, kept p s old e, ground (arith, same, get-insert c h n scores), low)
    | inr other ↦
        let known : contains seen c ≡ true = ground (arith, m, other, joined c) in
        let (s, t, e, f, low) = i.parents_lower c p known named in
        (s, t, kept p s (i.only p s e) e, kept c t known f, low)
  ];
  only = λ v s e. elim (Bool-cases (h == v)) [
    | inl same ↦ ground (arith, same, joined v)
    | inr other ↦
        let e' : get v scores ≡ some s = ground (arith, other, get-insert v h n scores, e) in
        ground (arith, joined v, i.only v s e')
  ];
  keyed = insert-IsKeyed h n scores i.keyed;
}
  where
    joined : (v : BlockHash) → contains (seen ++ h ∷ []) v ≡ (contains seen v || h == v)
    joined v = contains-append seen (h ∷ []) v ∙ ground arith

    kept :
        (v s : ℕ)
        → contains seen v ≡ true
        → get v scores ≡ some s
        → get v (insert h n scores) ≡ some s
    kept v s old e = elim (Bool-cases (h == v)) [
      | inl same ↦
          let fresh = subst (λ (x : ℕ). contains seen x ≡ false) ((==_iff h v).0 same) new in
          absurd (ground (arith, old, fresh))
      | inr other ↦ ground (arith, other, get-insert v h n scores, e)
    ]

pub scan_ordering-IsScored :
    (store : Table Block) (seen hs : List BlockHash) (n : ℕ) (heights scores : Table ℕ)
    → IsLinked store
    → IsDistinct (seen ++ hs)
    → IsOrderedAfter store seen hs
    → ((v : BlockHash) → contains hs v ≡ true → contains_key v store ≡ true)
    → IsScored store seen scores n
    → (heights' : Table ℕ) × (scores' : Table ℕ) × (n' : ℕ) × (scan_ordering store hs n heights
          scores
        ≡ done (heights', scores'))
      × IsScored store (seen ++ hs) scores' n'
unfolding scan_ordering
scan_ordering-IsScored store seen [] n heights scores linked d o known i = (
  heights,
  scores,
  n,
  refl,
  subst (λ (l : List ℕ). IsScored store l scores n) (sym (append-nil seen)) i,
)
scan_ordering-IsScored store seen (h ∷ hs) n heights scores linked d o known i =
    let (height, e) = height_of_known store h linked (known h (ground (arith, ==_self h))) in
    let next =
      IsScored-next store seen scores n h (IsDistinct-middle seen hs h d).0
        (λ p m. missing_zero_all (parents_of store h) seen p o.0 m) i in
    let (heights', scores', n', scanned, fit) =
      scan_ordering-IsScored store (seen ++ h ∷ []) hs (suc n) (insert h height heights)
        (insert h n scores) linked (subst IsDistinct (sym (append_assoc seen (h ∷ []) hs)) d) o.1
        (λ v m. known v (ground (arith, m))) next in
    (
      heights',
      scores',
      n',
      ground (arith, e, scanned),
      subst (λ (l : List ℕ). IsScored store l scores' n') (append_assoc seen (h ∷ []) hs) fit,
    )
