-- ===== src/Dag/Order/Waiting.antt =====
-- What a block still waits for: its parents that are not yet in the order.
use cytah_speed.Prelude.{
  ℕ, ◌+◌, ◌<◌, ◌≡◌, refl, true, false, List, [], ◌∷◌, ◌++◌, ◌==◌, ==_iff, ==_self, arith, contains,
  length, count, Table, subst, sym, Bool-cases, inl, inr,
}
use mathlib.Core.List.{append_assoc, append-nil}
use cytah_speed.Core.Block.{BlockHash, Block}
use cytah_speed.Core.Block.Validity.{IsDistinct}
use cytah_speed.Dag.Index.{parents_of}
use cytah_speed.Dag.Worklist.Found.{missing, contains-append}

pub count_absent : (a : ℕ) (xs : List ℕ) → contains xs a ≡ false → count a xs ≡ 0
count_absent a [] h = refl
count_absent a (x ∷ xs) h = ground (arith, count_absent a xs)

pub count_present : (a : ℕ) (xs : List ℕ) → contains xs a ≡ true → 0 < count a xs
count_present a [] h = cc
count_present a (x ∷ xs) h = ground (arith, count_present a xs)

-- One more in the order: as many fewer as the list names it.
pub missing_next :
    (ps found : List ℕ) (x : ℕ)
    → contains found x ≡ false
    → missing ps found ≡ missing ps (found ++ x ∷ []) + count x ps
unfolding missing
missing_next [] found x new = refl
missing_next (p ∷ ps) found x new = elim (Bool-cases (p == x)) [
  | inl same ↦ ground (
    arith,
    same,
    (==_iff p x).0 same,
    new,
    missing_next ps found x new,
    contains-append found (x ∷ []) p,
  )
  | inr other ↦ ground (
    arith,
    other,
    missing_next ps found x new,
    ==_iff x p,
    ==_iff p x,
    contains-append found (x ∷ []) p,
  )
]

pub missing_none : (ps : List ℕ) → missing ps [] ≡ length ps
unfolding missing
missing_none [] = refl
missing_none (p ∷ ps) = ground (arith, missing_none ps)

pub missing_zero :
    (ps found : List ℕ)
    → ((p : ℕ) → contains ps p ≡ true → contains found p ≡ true)
    → missing ps found ≡ 0
unfolding missing
missing_zero [] found h = refl
missing_zero (p ∷ ps) found h =
    ground (
      arith,
      h p (ground (arith, ==_self p)),
      missing_zero ps found (λ q m. h q (ground (arith, m))),
    )

pub missing_zero_all :
    (ps found : List ℕ) (p : ℕ)
    → missing ps found ≡ 0
    → contains ps p ≡ true
    → contains found p ≡ true
unfolding missing
missing_zero_all [] found p h m = cc
missing_zero_all (q ∷ ps) found p h m = elim (Bool-cases (q == p)) [
  | inl same ↦ ground (arith, (==_iff q p).0 same, h)
  | inr other ↦ missing_zero_all ps found p (ground (arith, h)) (ground (arith, m, other))
]

-- Every block of the list has its parents in what was seen before or in front of it.
abbrev pub IsOrderedAfter : Table Block → List BlockHash → List BlockHash → Type 0
IsOrderedAfter store seen [] = Unit
IsOrderedAfter store seen (h ∷ hs) =
    (missing (parents_of store h) seen ≡ 0) × IsOrderedAfter store (seen ++ h ∷ []) hs

-- Parents come before their children.
abbrev pub IsOrdered : Table Block → List BlockHash → Type 0
IsOrdered store hs = IsOrderedAfter store [] hs

pub IsOrderedAfter-append :
    (store : Table Block) (seen xs ys : List BlockHash)
    → IsOrderedAfter store seen xs
    → IsOrderedAfter store (seen ++ xs) ys
    → IsOrderedAfter store seen (xs ++ ys)
IsOrderedAfter-append store seen [] ys h k =
    subst (λ (l : List BlockHash). IsOrderedAfter store l ys) (append-nil seen) k
IsOrderedAfter-append store seen (x ∷ xs) ys h k = (
  h.0,
  IsOrderedAfter-append store (seen ++ x ∷ []) xs ys h.1 (
      subst (λ (l : List BlockHash). IsOrderedAfter store l ys)
        (sym (append_assoc seen (x ∷ []) xs)) k),
)

pub IsDistinct-snoc :
    (xs : List ℕ) (x : ℕ) → IsDistinct xs → contains xs x ≡ false → IsDistinct (xs ++ x ∷ [])
IsDistinct-snoc [] x d new = (refl, tt)
IsDistinct-snoc (y ∷ ys) x d new = (
  ground (arith, d.0, new, contains-append ys (x ∷ []) y, ==_iff x y, ==_iff y x),
  IsDistinct-snoc ys x d.1 (ground (arith, new)),
)

-- The first element of the second of two lists is in neither rest.
pub IsDistinct-middle :
    (xs ys : List ℕ) (x : ℕ)
    → IsDistinct (xs ++ x ∷ ys)
    → (contains xs x ≡ false) × (contains ys x ≡ false)
IsDistinct-middle [] ys x d = (refl, d.0)
IsDistinct-middle (z ∷ xs) ys x d =
    let (out, below) = IsDistinct-middle xs ys x d.1 in
    (
      ground (arith, d.0, out, contains-append xs (x ∷ ys) z, ==_iff x z, ==_iff z x, ==_self x),
      below,
    )
