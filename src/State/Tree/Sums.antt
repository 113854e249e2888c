-- ===== src/State/Tree/Sums.antt =====
-- Sums over the accounts of a table, and how an insertion and a reordering change them.
use cytah_speed.Prelude.{
  ℕ, ◌+◌, ◌≤◌, ◌≡◌, refl, ◌∙◌, Option, none, some, [], ◌∷◌, arith, Table, get, insert,
}
use mathlib.Core.List.{Perm, Permᴰ}
use mathlib.Core.Logic.{∥∥₁_elim}
use native.Mathlib.Nat.{ℕ_set}
use cytah_speed.Core.Transaction.{Address}
use cytah_speed.State.Tree.{Account}

-- The order of iteration lists every entry once.
abbrev pub IsOrder : (Table Account → Table Account) → Type 0
IsOrder order = (m : Table Account) → Perm (order m) m

module _ (w : Address → Account → ℕ) where
  unfoldable pub weigh : Table Account → ℕ
  weigh [] = 0
  weigh ((k, a) ∷ m) = w k a + weigh m

  abbrev pub weight_of : Address → Option Account → ℕ
  weight_of k none = 0
  weight_of k (some a) = w k a

  pub weigh-insert :
      (k : Address) (v : Account) (m : Table Account)
      → weigh (insert k v m) + weight_of k (get k m) ≡ weigh m + w k v
  unfolding weigh get insert
  weigh-insert k v [] = omega arith
  weigh-insert k v ((j, a) ∷ m) = ground (arith, weigh-insert k v m)

  pub weight_of-le-weigh : (k : Address) (m : Table Account) → weight_of k (get k m) ≤ weigh m
  unfolding weigh get
  weight_of-le-weigh k [] = omega arith
  weight_of-le-weigh k ((j, a) ∷ m) = ground (arith, weight_of-le-weigh k m)

  weigh-Permᴰ : {m n : Table Account} → Permᴰ m n → weigh m ≡ weigh n
  unfolding weigh
  weigh-Permᴰ Permᴰ.nil = refl
  weigh-Permᴰ (Permᴰ.cons {a = (k, x)} {b = (j, y)} e p) = ground (arith, weigh-Permᴰ p)
  weigh-Permᴰ (Permᴰ.swap {a = (k, x)} {b = (j, y)} {a' = (k', x')} {b' = (j', y')} e f) =
      ground arith
  weigh-Permᴰ (Permᴰ.trans p q) = weigh-Permᴰ p ∙ weigh-Permᴰ q

  -- A sum does not depend on the order of iteration.
  pub weigh-order :
      (order : Table Account → Table Account)
      → IsOrder order
      → (m : Table Account) → weigh (order m) ≡ weigh m
  weigh-order order h m = ∥∥₁_elim (h m) (ℕ_set _ _) weigh-Permᴰ
