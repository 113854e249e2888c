-- ===== src/Ghostdag/Ordering/Rounds.antt =====
-- What one round of `generate_ordering` adds, and that a round adds something while blocks are left.
use cytah_speed.Prelude.{
  ℕ, ◌≡◌, ◌⊎◌, refl, ap, sym, subst, ◌∙◌, true, false, not, ◌&&◌, ◌||◌, List, [], ◌∷◌, ◌++◌, arith,
  ◌==◌, ==_iff, ==_self, contains, map, all, unwrap_or, get, Table, Bool-cases, inl, inr,
}
use mathlib.Core.List.{append_assoc, append-nil}
use cytah_speed.Core.Block.{BlockHash, Block}
use cytah_speed.Core.Block.Validity.{IsDistinct}
use cytah_speed.Dag.Index.{parents_of}
use cytah_speed.Dag.Worklist.Found.{missing, contains-append, Within}
use cytah_speed.Dag.Order.Waiting.{
  missing_zero, missing_zero_all, IsOrderedAfter, IsDistinct-middle,
}
use cytah_speed.Dag.Order.Pigeonhole.{contains-retain}
use cytah_speed.Ghostdag.Engine.{insert_scored, sort_scored}
use cytah_speed.Ghostdag.Ordering.{next_blocks, ordered_by_score, insert_all}
use cytah_speed.Ghostdag.Ordering.Validation.{set_insert_new}

-- The hashes of a scored list.
abbrev hashes : List (BlockHash × ℕ) → List BlockHash
hashes xs = map (λ (x : BlockHash × ℕ). x.0) xs

contains-insert_scored :
    (x : BlockHash × ℕ) (xs : List (BlockHash × ℕ)) (v : BlockHash)
    → contains (hashes (insert_scored x xs)) v ≡ (x.0 == v || contains (hashes xs) v)
unfolding insert_scored
contains-insert_scored x [] v = refl
contains-insert_scored x (y ∷ ys) v = ground (arith, contains-insert_scored x ys v)

insert_scored-IsDistinct :
    (x : BlockHash × ℕ) (xs : List (BlockHash × ℕ))
    → contains (hashes xs) x.0 ≡ false
    → IsDistinct (hashes xs)
    → IsDistinct (hashes (insert_scored x xs))
unfolding insert_scored
insert_scored-IsDistinct x [] new d = (refl, tt)
insert_scored-IsDistinct x (y ∷ ys) new d =
    ground (arith, insert_scored-IsDistinct x ys, contains-insert_scored x ys y.0, ==_iff x.0 y.0)

contains-sort_scored :
    (xs : List (BlockHash × ℕ)) (v : BlockHash)
    → contains (hashes (sort_scored xs)) v ≡ contains (hashes xs) v
unfolding sort_scored
contains-sort_scored [] v = refl
contains-sort_scored (x ∷ xs) v =
    ground (arith, contains-insert_scored x (sort_scored xs) v, contains-sort_scored xs v)

sort_scored-IsDistinct :
    (xs : List (BlockHash × ℕ)) → IsDistinct (hashes xs) → IsDistinct (hashes (sort_scored xs))
unfolding sort_scored
sort_scored-IsDistinct [] d = tt
sort_scored-IsDistinct (x ∷ xs) d =
    insert_scored-IsDistinct x (sort_scored xs) (contains-sort_scored xs x.0 ∙ d.0)
      (sort_scored-IsDistinct xs d.1)

hashes_paired : (f : BlockHash → ℕ) (hs : List BlockHash) → hashes (map (λ h. (h, f h)) hs) ≡ hs
hashes_paired f [] = refl
hashes_paired f (h ∷ hs) = ap (λ l. h ∷ l) (hashes_paired f hs)

-- A round only permutes its blocks.
pub contains-ordered_by_score :
    (scores : Table ℕ) (hs : List BlockHash) (v : BlockHash)
    → contains (ordered_by_score scores hs) v ≡ contains hs v
unfolding ordered_by_score
contains-ordered_by_score scores hs v =
    contains-sort_scored (map (λ h. (h, unwrap_or (get h scores) 0)) hs) v
    ∙ ap (λ (l : List ℕ). contains l v) (hashes_paired (λ h. unwrap_or (get h scores) 0) hs)

pub ordered_by_score-IsDistinct :
    (scores : Table ℕ) (hs : List BlockHash)
    → IsDistinct hs
    → IsDistinct (ordered_by_score scores hs)
unfolding ordered_by_score
ordered_by_score-IsDistinct scores hs d =
    sort_scored-IsDistinct (map (λ h. (h, unwrap_or (get h scores) 0)) hs)
      (subst IsDistinct (sym (hashes_paired (λ h. unwrap_or (get h scores) 0) hs)) d)

-- New hashes join the set at its end.
pub insert_all_new :
    (hs processed : List BlockHash)
    → IsDistinct (processed ++ hs)
    → insert_all hs processed ≡ processed ++ hs
unfolding insert_all
insert_all_new [] processed d = sym (append-nil processed)
insert_all_new (h ∷ hs) processed d =
    let grown = set_insert_new processed h (IsDistinct-middle processed hs h d).0 in
    ap (insert_all hs) grown
    ∙ insert_all_new hs (processed ++ h ∷ [])
        (subst IsDistinct (sym (append_assoc processed (h ∷ []) hs)) d)
    ∙ append_assoc processed (h ∷ []) hs

pub all_found :
    (ps seen : List BlockHash)
    → (all (contains seen) ps ≡ true → missing ps seen ≡ 0)
      × (missing ps seen ≡ 0 → all (contains seen) ps ≡ true)
unfolding missing
all_found [] seen = (λ e. refl, λ e. refl)
all_found (p ∷ ps) seen = let (to, from) = all_found ps seen in ground (arith, to, from)

pub contains-next_blocks :
    (store : Table Block) (processed hs : List BlockHash) (v : BlockHash)
    → contains (next_blocks store processed hs) v ≡ (
        contains hs v
        && (not (contains processed v) && all (contains processed) (parents_of store v)))
unfolding next_blocks
contains-next_blocks store processed hs v =
    contains-retain
      (λ h. not (contains processed h) && all (contains processed) (parents_of store h)) hs v

-- Of an ordered list, all is processed, or some block can come next.
pub next_exists :
    (store : Table Block) (processed seen hs : List BlockHash)
    → IsOrderedAfter store seen hs
    → Within seen processed
    → Within hs processed
      ⊎ ((h : BlockHash) × (contains hs h ≡ true)
          × (contains processed h ≡ false)
          × (all (contains processed) (parents_of store h) ≡ true))
next_exists store processed seen [] o within = inl (λ v m. cc)
next_exists store processed seen (h ∷ hs) o within = elim (Bool-cases (contains processed h)) [
  | inl old ↦
      let within' : Within (seen ++ h ∷ []) processed = λ v m. elim (Bool-cases (h == v)) [
        | inl same ↦ subst (λ (x : ℕ). contains processed x ≡ true) ((==_iff h v).0 same) old
        | inr other ↦ within v (ground (arith, m, other, contains-append seen (h ∷ []) v))
      ] in
      elim (next_exists store processed (seen ++ h ∷ []) hs o.1 within') [
        | inl done ↦ inl λ v m. elim (Bool-cases (h == v)) [
          | inl same ↦ subst (λ (x : ℕ). contains processed x ≡ true) ((==_iff h v).0 same) old
          | inr other ↦ done v (ground (arith, m, other))
        ]
        | inr (x, m, new, ready) ↦ inr (x, ground (arith, m), new, ready)
      ]
  | inr new ↦ inr (
    h,
    ground (arith, ==_self h),
    new,
    (all_found (parents_of store h) processed).1 (
        missing_zero (parents_of store h) processed
          (λ p m. within p (missing_zero_all (parents_of store h) seen p o.0 m))),
  )
]
