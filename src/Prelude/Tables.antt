-- ===== src/Prelude/Tables.antt =====
-- A `HashMap` from numbers, as an association list: the order of the list is the order of
-- iteration. Removal takes out every entry of the key.
use mathlib.Core.Logic.{inl, inr}
use Prim.Native.Nat.{ℕ, suc}
use mathlib.Core.Path.{◌≡◌, refl, subst}
use mathlib.Core.Bool.{Bool}
use mathlib.Core.List.{List, [], ◌∷◌}
use mathlib.Core.Option.{Option, none, some}
use native.Mathlib.Omega.{arith}
use cytah_speed.Prelude.Tests.{◌==◌, if◌then◌else◌, is_some, if_ind, Bool-cases}
use cytah_speed.Prelude.Lists.{length, All}

abbrev pub Table {ℓ} : Type ℓ → Type ℓ
Table V = List (ℕ × V)

module _ {ℓ} {V : Type ℓ} where
  unfoldable pub get : ℕ → Table V → Option V
  get k [] = none
  get k ((j, v) ∷ m) = if j == k then some v else get k m

  unfoldable pub insert : ℕ → V → Table V → Table V
  insert k v [] = (k, v) ∷ []
  insert k v ((j, w) ∷ m) = if j == k then (k, v) ∷ m else (j, w) ∷ insert k v m

  unfoldable pub remove : ℕ → Table V → Table V
  remove k [] = []
  remove k ((j, w) ∷ m) = let rest = remove k m in if j == k then rest else (j, w) ∷ rest

  abbrev pub contains_key : ℕ → Table V → Bool
  contains_key k m = is_some (get k m)

  abbrev pub keys : Table V → List ℕ
  keys [] = []
  keys ((k, v) ∷ m) = k ∷ keys m

  abbrev pub values : Table V → List V
  values [] = []
  values ((k, v) ∷ m) = v ∷ values m

  -- No key is listed twice.
  abbrev pub IsKeyed : Table V → Type ℓ
  IsKeyed [] = Unit
  IsKeyed ((k, v) ∷ m) = (get k m ≡ none) × IsKeyed m

  pub get-insert :
      (j k : ℕ) (v : V) (m : Table V) → get j (insert k v m) ≡ (if k == j then some v else get j m)
  unfolding get insert
  get-insert j k v [] = refl
  get-insert j k v ((i, w) ∷ m) = ground (arith, get-insert j k v m)

  pub get-remove : (j k : ℕ) (m : Table V) → get j (remove k m) ≡ (if k == j then none else get j m)
  unfolding get remove
  get-remove j k [] = ground arith
  get-remove j k ((i, w) ∷ m) = ground (arith, get-remove j k m)

  pub insert-IsKeyed : (k : ℕ) (v : V) (m : Table V) → IsKeyed m → IsKeyed (insert k v m)
  unfolding get insert
  insert-IsKeyed k v [] h = (refl, tt)
  insert-IsKeyed k v ((i, w) ∷ m) h = ground (arith, insert-IsKeyed k v m h.1, get-insert i k v m)

  pub remove-IsKeyed : (k : ℕ) (m : Table V) → IsKeyed m → IsKeyed (remove k m)
  unfolding get remove
  remove-IsKeyed k [] h = tt
  remove-IsKeyed k ((i, w) ∷ m) h = ground (arith, remove-IsKeyed k m h.1, get-remove i k m)

  pub length-insert :
      (k : ℕ) (v : V) (m : Table V)
      → length (insert k v m) ≡ (if contains_key k m then length m else suc (length m))
  unfolding get insert
  length-insert k v [] = refl
  length-insert k v ((i, w) ∷ m) = ground (arith, length-insert k v m)

  pub length-remove_absent : (k : ℕ) (m : Table V) → get k m ≡ none → length (remove k m) ≡ length m
  unfolding get remove
  length-remove_absent k [] h = refl
  length-remove_absent k ((i, w) ∷ m) h = ground (arith, length-remove_absent k m)

  pub length-remove :
      (k : ℕ) (m : Table V)
      → IsKeyed m
      → length m ≡ (if contains_key k m then suc (length (remove k m)) else length (remove k m))
  unfolding get remove
  length-remove k [] h = refl
  length-remove k ((i, w) ∷ m) h = ground (arith, length-remove k m h.1, length-remove_absent k m)

-- A predicate on all entries, through reads and writes.
module _ {ℓ κ} {V : Type ℓ} (P : ℕ × V → Type κ) where
  pub All-get : (k : ℕ) (v : V) (m : Table V) → All P m → get k m ≡ some v → P (k, v)
  unfolding get
  All-get k v [] h e = cc
  All-get k v ((j, w) ∷ m) h e = elim (Bool-cases (j == k)) [
    | inl here ↦
        let same : j ≡ k = ground arith in
        let found : w ≡ v = ground arith in subst P (λ i. (same i, found i)) h.0
    | inr there ↦ All-get k v m h.1 (ground arith)
  ]

  pub All-insert : (k : ℕ) (v : V) (m : Table V) → P (k, v) → All P m → All P (insert k v m)
  unfolding insert
  All-insert k v [] one rest = (one, tt)
  All-insert k v ((j, w) ∷ m) one rest =
      if_ind (All P) (j == k) (λ _. (one, rest.1)) (λ _. (rest.0, All-insert k v m one rest.1))

  pub All-remove : (k : ℕ) (m : Table V) → All P m → All P (remove k m)
  unfolding remove
  All-remove k [] rest = tt
  All-remove k ((j, w) ∷ m) rest =
      let below = All-remove k m rest.1 in
      if_ind (All P) (j == k) (λ _. below) (λ _. (rest.0, below))
