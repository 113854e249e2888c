-- ===== src/Dag/Order/Pigeonhole.antt =====
-- Counting lists without repetitions against each other.
use cytah_speed.Prelude.{
  ℕ, ◌+◌, ◌≡◌, refl, ap, subst, Bool, true, false, ◌&&◌, List, [], ◌∷◌, ◌++◌, arith, ◌==◌, ==_iff,
  ==_self, contains, count, length, retain, Bool-cases, inl, inr,
}
use cytah_speed.Core.Block.Validity.{IsDistinct}
use cytah_speed.Dag.Worklist.Found.{missing, Within, contains-append}
use cytah_speed.Dag.Order.Waiting.{count_absent, missing_none}

count_one : (us : List ℕ) (x : ℕ) → IsDistinct us → contains us x ≡ true → count x us ≡ 1
count_one [] x d m = cc
count_one (u ∷ us) x d m = elim (Bool-cases (u == x)) [
  | inl same ↦
      let absent : contains us x ≡ false =
        subst (λ (y : ℕ). contains us y ≡ false) ((==_iff u x).0 same) d.0 in
      ground (arith, same, count_absent x us absent)
  | inr other ↦ ground (arith, other, count_one us x d.1)
]

missing_front :
    (us xs : List ℕ) (x : ℕ)
    → contains xs x ≡ false
    → missing us xs ≡ missing us (x ∷ xs) + count x us
unfolding missing
missing_front [] xs x new = refl
missing_front (u ∷ us) xs x new = elim (Bool-cases (x == u)) [
  | inl same ↦
      let absent : contains xs u ≡ false =
        subst (λ (y : ℕ). contains xs y ≡ false) ((==_iff x u).0 same) new in
      ground (arith, same, absent, missing_front us xs x new, ==_iff x u, ==_self u)
  | inr other ↦ ground (arith, other, missing_front us xs x new, ==_iff u x, ==_iff x u)
]

-- Of two lists without repetitions, one inside the other, the lengths differ by what is missing.
pub missing-IsDistinct :
    (us xs : List ℕ)
    → IsDistinct us
    → IsDistinct xs
    → Within xs us
    → missing us xs + length xs ≡ length us
missing-IsDistinct us [] d e within = omega (arith, missing_none us)
missing-IsDistinct us (x ∷ xs) d e within = omega (
  arith,
  missing_front us xs x e.0,
  count_one us x d (within x (ground (arith, ==_self x))),
  missing-IsDistinct us xs d e.1 (λ v m. within v (ground (arith, m))),
)

pub contains-retain :
    (p : ℕ → Bool) (xs : List ℕ) (v : ℕ) → contains (retain p xs) v ≡ (contains xs v && p v)
contains-retain p [] v = refl
contains-retain p (x ∷ xs) v = elim (Bool-cases (x == v)) [
  | inl same ↦ ground (arith, contains-retain p xs v, ap p ((==_iff x v).0 same))
  | inr other ↦ ground (arith, contains-retain p xs v)
]

pub retain-IsDistinct : (p : ℕ → Bool) (xs : List ℕ) → IsDistinct xs → IsDistinct (retain p xs)
retain-IsDistinct p [] d = tt
retain-IsDistinct p (x ∷ xs) d =
    ground (arith, contains-retain p xs x, d.0, retain-IsDistinct p xs d.1)

pub append-IsDistinct :
    (xs ys : List ℕ)
    → IsDistinct xs
    → IsDistinct ys
    → ((v : ℕ) → contains ys v ≡ true → contains xs v ≡ false)
    → IsDistinct (xs ++ ys)
append-IsDistinct [] ys d e apart = e
append-IsDistinct (x ∷ xs) ys d e apart = (
  ground (arith, contains-append xs ys x, d.0, apart x, ==_self x),
  append-IsDistinct xs ys d.1 e (λ v m. ground (arith, apart v m)),
)
